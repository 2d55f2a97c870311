-- ===== src/Client/Delivered.antt =====
-- messages.c, client.c: a message that the server delivers, read and acknowledged by the client.
use geekchatserver.Prelude.{◌≡◌, refl, ◌∙◌, List, [], ◌∷◌, Bytes, same, codes, Option, some, pos}
use geekchatserver.Platform.{Platform}
use geekchatserver.State.{User}
use geekchatserver.Methods.Field.{field}
use geekchatserver.Messages.Deliver.{message_json}
use geekchatserver.Packet.Wire.{Fits, text_of, wire}
use geekchatserver.Client.{ClientStruct}
use geekchatserver.Client.Requests.{recv_respond}
use geekchatserver.Client.Loop.{message_of, recv_message}
use geekchatserver.Client.Fetch.{Holds}
use geekchatserver.Client.Reads.{recv_message_acknowledges}
use geekchatserver.Client.Served.{KeepsTexts, other, here}

module _ ⦃p : Platform⦄ where
  message_of_parts :
      (json : p.Json) {from message uuid : Bytes}
      → field json (codes "from") ≡ some from
      → field json (codes "message") ≡ some message
      → field json (codes "uuid") ≡ some uuid
      → message_of json ≡ some (from, message, uuid)
  unfolding message_of
  message_of_parts json from message uuid = rw (message_of, from, message, uuid) refl

  message_of-message_json :
      KeepsTexts
      → (from to : User) (uuid message : Bytes)
      → message_of (message_json from to uuid message) ≡ some (from.username, message, uuid)
  unfolding message_json same
  message_of-message_json texts from to uuid message =
      message_of_parts (message_json from to uuid message)
        (other _ _ _ _ refl ∙ other _ _ _ _ refl ∙ other _ _ _ _ refl ∙ here texts _ _ _)
        (here texts _ _ _) (other _ _ _ _ refl ∙ here texts _ _ _)

  -- A client that holds no bytes and reads the message that the server sends for a uuid, a sender and a
  -- text: where the message and the acknowledgement fit a packet, the message parses to itself and
  -- JSON texts are kept, it writes just the acknowledgement of that uuid with its own token, and holds
  -- no bytes again.
  pub delivered_acknowledged :
      (ct : ClientStruct) (from to : User) (uuid message : Bytes) (more : List (Option Bytes))
      → KeepsTexts
      → Holds [] ct
      → ct.reads ≡ some (wire (message_json from to uuid message)) ∷ more
      → Fits (message_json from to uuid message)
      → p.json_loadb (text_of (message_json from to uuid message))
        ≡ some (message_json from to uuid message)
      → Fits (recv_respond uuid ct.token)
      → (ct' : ClientStruct) × (recv_message ct ≡ some (some (pos 0), ct'))
        × (ct'.written ≡ wire (recv_respond uuid ct.token) ∷ ct.written)
        × Holds [] ct'
  delivered_acknowledged ct from to uuid message more texts held reads fits loads fits' =
      recv_message_acknowledges ct (message_json from to uuid message) from.username message uuid
        more held reads fits loads (message_of-message_json texts from to uuid message) fits'
