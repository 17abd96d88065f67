-- ===== src/Subprotocol/Tests.antt =====
-- src/subprotocol.rs: a client of two protocols, and servers.
use ws_fabric.Prelude.{◌≡◌, refl, false, [], ◌∷◌, Text}
use ws_fabric.Error.{ok}
use ws_fabric.Text.Ascii.{ascii}
use ws_fabric.Subprotocol.{
  SubprotocolList, SubprotocolNegotiator, to_header_value, parse_header, parse_response, negotiate,
}
use ws_fabric.Subprotocol.Validation.{AreNames}
use ws_fabric.Subprotocol.Negotiation.{accepts, Picks, negotiate-Picks}
use ws_fabric.Subprotocol.RoundTrip.{handshake_agrees}

abbrev chat : Text
chat = b'c' ∷ b'h' ∷ b'a' ∷ b't' ∷ []

abbrev mqtt : Text
mqtt = b'm' ∷ b'q' ∷ b't' ∷ b't' ∷ []

abbrev client : SubprotocolList
client = record { protocols = chat ∷ mqtt ∷ [] }

abbrev server : SubprotocolNegotiator
server = record { protocols = mqtt ∷ []; allow_wildcard = false }

names : AreNames ascii (chat ∷ mqtt ∷ [])
names = (record { not_empty = refl; chars = refl }, (record { not_empty = refl; chars = refl }, tt))

handshake_agrees_example :
    (negotiate server (parse_header ascii (to_header_value client)) ≡ negotiate server client)
    × (parse_response client (negotiate server (parse_header ascii (to_header_value client)))
        ≡ ok (negotiate server client))
handshake_agrees_example = handshake_agrees ascii server client names

negotiate-Picks_example : Picks (accepts server) (chat ∷ mqtt ∷ []) (negotiate server client)
negotiate-Picks_example = negotiate-Picks server client
