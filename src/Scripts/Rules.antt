-- ===== src/Scripts/Rules.antt =====
-- crates/gatehound-core/src/scripts.rs: the rules by which a script's text is scanned.
use mcp_gatehound.Base.{String, List, [], ◌∷◌}

-- From the least to the worst.
pub data Severity : Type 0 where
  note warn danger : Severity

pub record Rule : Type 0 where
  pub severity : Severity
  pub id : String
  pub needles : List String
  pub unless : List String
  pub why : String

abbrev spawns_a_shell : Rule
spawns_a_shell = record {
  severity = danger;
  id = "spawns-a-shell";
  needles =
      "os.system(" ∷ "subprocess" ∷ "popen(" ∷ "child_process" ∷ "execSync" ∷ "spawnSync"
      ∷ "Deno.Command" ∷ "Deno.run(" ∷ "shell=True" ∷ "pty.spawn" ∷ "/bin/sh" ∷ "/bin/bash" ∷ [];
  unless = [];
  why =
      "starts another process, which can be a shell — the one thing an argv-only action engine exists to prevent";
}

abbrev data_becomes_code : Rule
data_becomes_code = record {
  severity = danger;
  id = "data-becomes-code";
  needles =
      "eval(" ∷ "exec(" ∷ "new Function(" ∷ "Function(\"" ∷ "compile(" ∷ "__import__("
      ∷ "importlib.import_module" ∷ "vm.runIn" ∷ "pickle.loads" ∷ "marshal.loads" ∷ "yaml.load("
      ∷ [];
  unless = "re.compile(" ∷ "regex.compile(" ∷ "re2.compile(" ∷ [];
  why = "turns a value into code at runtime, so anything that reaches that value is code";
}

abbrev fetches_code : Rule
fetches_code = record {
  severity = danger;
  id = "fetches-code";
  needles =
      "curl " ∷ "wget " ∷ "pip install" ∷ "npm install" ∷ "--allow-all" ∷ "-A --" ∷ "deno install"
      ∷ [];
  unless = [];
  why =
      "pulls something else onto the machine and runs it, which puts what actually executes outside this review";
}

abbrev network_egress : Rule
network_egress = record {
  severity = warn;
  id = "network-egress";
  needles =
      "requests." ∷ "import requests" ∷ "from requests" ∷ "urllib" ∷ "httpx" ∷ "http.client"
      ∷ "import socket" ∷ "socket." ∷ "fetch(" ∷ "XMLHttpRequest" ∷ "Deno.connect" ∷ "axios"
      ∷ "net.Socket" ∷ "https.request" ∷ [];
  unless = "urllib.parse" ∷ [];
  why = "talks to the network, so whatever it reads locally can leave the machine";
}

abbrev reads_credentials : Rule
reads_credentials = record {
  severity = warn;
  id = "reads-credentials";
  needles =
      "os.environ" ∷ "process.env" ∷ "Deno.env" ∷ ".ssh/" ∷ "id_rsa" ∷ ".aws/credentials" ∷ ".npmrc"
      ∷ "keychain" ∷ ".netrc" ∷ "GATEHOUND_TOKEN" ∷ ".git-credentials" ∷ [];
  unless = [];
  why = "reads secrets or the environment; combined with egress that is exfiltration";
}

abbrev deletes_files : Rule
deletes_files = record {
  severity = warn;
  id = "deletes-files";
  needles =
      "shutil.rmtree" ∷ "os.remove(" ∷ "os.unlink(" ∷ "rm -rf" ∷ "fs.rm(" ∷ "fs.rmSync"
      ∷ "unlinkSync" ∷ "Deno.remove" ∷ "truncate(" ∷ [];
  unless = [];
  why = "deletes files, and a wrong path here is not recoverable";
}

abbrev obfuscated : Rule
obfuscated = record {
  severity = warn;
  id = "obfuscated";
  needles = "b64decode" ∷ "atob(" ∷ "fromCharCode" ∷ "codecs.decode" ∷ "\\x68\\x74" ∷ [];
  unless = [];
  why = "decodes text before using it, which is how a payload hides from exactly this review";
}

abbrev writes_outside_cwd : Rule
writes_outside_cwd = record {
  severity = note;
  id = "writes-outside-cwd";
  needles =
      "/etc/" ∷ "/usr/" ∷ "/Library/" ∷ "expanduser(\"~" ∷ "os.path.expanduser" ∷ "homedir()" ∷ [];
  unless = [];
  why = "touches a path outside the working directory the tool declares";
}

unfoldable pub rules : List Rule
rules =
    spawns_a_shell ∷ data_becomes_code ∷ fetches_code ∷ network_egress ∷ reads_credentials
    ∷ deletes_files ∷ obfuscated ∷ writes_outside_cwd ∷ []
