-- ===== src/Tests/Upstreams.antt =====
-- A value that would leave its segment.
use mcp_gatehound.Upstreams.Http.{path_value}
use mcp_gatehound.Base.{bytes}
use mcp_gatehound.Base.{String, true, ◌≡◌, ◌≢◌, refl}
use mcp_gatehound.Base.{lacks}
use mcp_gatehound.Upstreams.Http.Decoded.{percent_decode, outside}
use mcp_gatehound.Upstreams.Http.Segments.{path_value-safe}

abbrev segment : String
segment = "a%2F..%3Fb"

path_value-safe_example :
    (((lacks b'/' segment ≡ true)
        × (lacks b'?' segment ≡ true)
        × (lacks b'#' segment ≡ true)
        × (lacks 0x5c segment ≡ true))
      × ((segment ≢ ".") × (segment ≢ ".."))
      × ((percent_decode outside segment ≡ bytes "a/..?b")
          × (percent_decode outside segment ≢ bytes ".")
          × (percent_decode outside segment ≢ bytes "..")))
unfolding path_value bytes
path_value-safe_example = path_value-safe "id" "a/..?b" segment refl
