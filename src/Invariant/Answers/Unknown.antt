-- ===== src/Invariant/Answers/Unknown.antt =====
-- packet.c: the answer to a method that the server does not have.
use geekchatserver.Prelude.{
  ℕ, ◌≡◌, refl, ap, ◌∙◌, [], ◌∷◌, Bytes, same, codes, All, false, some, negsuc, neg,
}
use geekchatserver.Platform.{Platform}
use geekchatserver.State.{Client, Server}
use geekchatserver.Framing.{packet, next_frame}
use geekchatserver.Methods.Field.{field}
use geekchatserver.Packet.Respond.{build_simplify_json}
use geekchatserver.Packet.Dispatch.{methods, dispatch_packet}
use geekchatserver.Packet.Table.{methods_table_other}
use geekchatserver.Packet.Wire.{Fits, text_of, wire, not_found, unknown_run}
use geekchatserver.Server.Main.{Reach}
use geekchatserver.Invariant.Reach.{Reach-IsConsistent}

module _ ⦃p : Platform⦄ where
  not_found_errno : p.json_object_get not_found (codes "errno") ≡ some (p.json_integer (neg 0xFF06))
  unfolding build_simplify_json same
  not_found_errno = p.get_set_new _ _ _ _

  not_found_method :
      p.json_object_get not_found (codes "method") ≡ some (p.json_string (codes "null"))
  unfolding build_simplify_json same
  not_found_method = p.get_set_new _ _ _ _ ∙ p.get_set_new _ _ _ _

  set_other :
      (o v : p.Json) (k j : Bytes)
      → same k j ≡ false
      → p.json_object_get (p.json_object_set_new o k v) j ≡ p.json_object_get o j
  set_other o v k j e = p.get_set_new o v k j ∙ rw e refl

  del_other :
      (o : p.Json) (k j : Bytes)
      → same k j ≡ false
      → p.json_object_get (p.json_object_del o k) j ≡ p.json_object_get o j
  del_other o k j e = p.get_del o k j ∙ rw e refl

  not_found_else :
      (k : Bytes)
      → same (codes "errno") k ≡ false
      → same (codes "method") k ≡ false
      → p.json_object_get not_found k ≡ p.json_object_get p.json_object k
  unfolding build_simplify_json
  not_found_else k e m =
      set_other _ _ (codes "errno") k e
      ∙ set_other _ _ (codes "method") k m
      ∙ del_other _ (codes "errno") k e
      ∙ del_other _ (codes "method") k m

  -- In every state that the server reaches: a packet whose JSON text names a method that is in no
  -- entry of the table is answered, if the answer fits a packet, with one packet to the client, and
  -- nothing else of the server changes; the result is -1. A receiver cuts the packet out whole; its
  -- text is that of an object whose "errno" is the number -0xFF06 and whose "method" is the text
  -- "null", and which has no other key that an empty object has not.
  pub reached_unknown_answered :
      (mysql : p.Conn) (random : p.Rand) (sv : Server)
      → Reach mysql random sv
      → (c : ℕ) (ct : Client) → sv.clients c ≡ some ct
      → (payload : Bytes) (json : p.Json) (method : Bytes) → p.json_loadb payload ≡ some json
      → field json (codes "method") ≡ some method
      → All (λ x. same x.name method ≡ false) methods
      → Fits not_found
      → (answer : p.Json) × (p.json_object_get answer (codes "errno")
          ≡ some (p.json_integer (neg 0xFF06)))
        × (p.json_object_get answer (codes "method") ≡ some (p.json_string (codes "null")))
        × ((k : Bytes)
            → same (codes "errno") k ≡ false
            → same (codes "method") k ≡ false
            → p.json_object_get answer k ≡ p.json_object_get p.json_object k)
        × (dispatch_packet c payload sv
            ≡ some (negsuc 0, record sv { sent = (ct.fd, wire answer) ∷ sv.sent }))
        × (next_frame (wire answer) ≡ packet (text_of answer) [])
  reached_unknown_answered mysql random sv reach c ct known payload json method loaded named unknown
        fits =
      let table = (Reach-IsConsistent mysql random sv reach).methods_map in
      let not_there =
        ap (λ (m : p.Map). p.hashmap_get m method) table ∙ methods_table_other method unknown in
      let (run, cut) = unknown_run c sv known payload loaded named not_there fits in
      (not_found, not_found_errno, not_found_method, not_found_else, run, cut)
