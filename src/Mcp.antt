-- ===== src/Mcp.antt =====
-- pkg/mcp: the interfaces between the gateway, the protocol server and the upstream servers.
-- `W` is the state of everything outside the gateway; a call of an interface reads and changes it.
pub mod StaticRegistry
pub mod Server
pub mod Client
pub mod Egress
use helmdeep.Base.{String, ℤ, Option, List, Result}
use helmdeep.Types.{Tool, ToolCall, ToolResult}

pub record Implementation : Type 0 where
  pub name : String
  pub version : String

pub record CallContext : Type 0 where
  pub credential : String
  pub client_info : Option Implementation
  pub protocol_version : String
  pub request_id : String

pub record ListToolsResult : Type 0 where
  pub tools : List Tool
  pub next_cursor : String

pub record ProtocolError : Type 0 where
  pub code : ℤ
  pub message : String

pub record Upstream (W : Type 0) : Type 0 where
  pub name : String
  pub list_tools : W → Result String (List Tool) × W
  pub call_tool : ToolCall → W → Result String ToolResult × W

pub record Registry (W : Type 0) : Type 0 where
  pub upstreams : List (Upstream W)
  pub resolve : String → Option (Upstream W)
  pub tools : List Tool
