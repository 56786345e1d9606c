-- ===== src/Connection/Types.antt =====
-- internal/connection/model.go, and the interface of a plugin (internal/plugin/interface.go).
use go_database.Base.{Str, ℕ, List}
use go_database.Plugin.Types.{DbType, Config, Schema, Result, Reply}

pub data State : Type 0 where
  connected disconnected error connecting : State

pub record Connection : Type 0 where
  pub id : Str
  pub name : Str
  pub typ : DbType
  pub source : Str
  pub config : Config
  pub state : State
  pub latency : ℕ
  pub error_text : Str
  pub tags : List Str
  pub owner_id : Str
  pub created_at : ℕ
  pub updated_at : ℕ

pub record Summary : Type 0 where
  pub id : Str
  pub name : Str
  pub typ : DbType
  pub source : Str
  pub state : State
  pub latency : ℕ
  pub tags : List Str

-- `DBPlugin`: what a plugin `P` does to the world of databases `W`.
pub record DbPlugin (P W : Type 0) : Type 0 where
  pub connect : P → Config → W → Reply (Unit {0}) × W
  pub ping : P → W → Reply (Unit {0}) × W
  pub close : P → W → Reply (Unit {0}) × W
  pub query : P → Str → W → Reply Result × W
  pub execute : P → Str → W → Reply Result × W
  pub tables : P → W → Reply (List Str) × W
  pub schema : P → W → Reply Schema × W
  pub databases : P → W → Reply (List Str) × W
  pub create_database : P → Str → W → Reply (Unit {0}) × W
  pub drop_database : P → Str → W → Reply (Unit {0}) × W
