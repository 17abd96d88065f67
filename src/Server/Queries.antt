-- ===== src/Server/Queries.antt =====
-- src/server.rs: the fields of a client, and a server from an address.
use ws_fabric.Prelude.{ℕ, Text}
use ws_fabric.Float.{F64}
use ws_fabric.Config.Server.{new as new_config}
use ws_fabric.Server.{ConnectedClient, Server, new}

abbrev pub id : ConnectedClient → ℕ
id c = c.id

abbrev pub remote_addr : ConnectedClient → Text
remote_addr c = c.remote_addr

unfoldable pub bind : (f : F64) → Text → Server f
unfolding new
bind f address = new f (new_config address)
