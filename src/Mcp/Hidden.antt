-- ===== src/Mcp/Hidden.antt =====
-- What of a call's arguments is written down: its rows in the log, and its card.
use mcp_gatehound.Json.{Value}
use mcp_gatehound.Mcp.{Request}

abbrev pub asking : Request → Value → Request
asking r v = record r { args = v }
