-- ===== src/Client/Marked.antt =====
-- methods/com.message.recv.respond.c, client.c: an acknowledgement, and what the database is asked for it.
use geekchatserver.Prelude.{
  ◌≡◌, [], ◌∷◌, Bytes, codes, All, if◌then◌else◌, false, ◌==◌, Option, none, some,
}
use geekchatserver.Platform.{Platform}

-- What is behind a text that has to come first.
after : Bytes → Bytes → Option Bytes
after [] text = some text
after (b ∷ first) [] = none
after (b ∷ first) (c ∷ text) = let rest = after first text in if b == c then rest else none

-- The bytes before the first quote, and those behind it.
until_quote : Bytes → Option (Bytes × Bytes)
until_quote [] = none
until_quote (b ∷ text) =
    let rest = until_quote text in
    if b == 39
    then some ([], text)
    else elim rest [ none ↦ none | some (value, more) ↦ some (b ∷ value, more) ]

-- The user and the uuid of the messages that a statement marks as read: a reader of the statement
-- "update messages set have_read = '1' where to_user = '…' and uuid = '…'".
pub marked_by : Bytes → Option (Bytes × Bytes)
marked_by query =
    elim (after (codes "update messages set have_read = '1' where to_user = '") query) [
      | none ↦ none
      | some rest ↦ elim (until_quote rest) [
        | none ↦ none
        | some (user, more) ↦ elim (after (codes " and uuid = '") more) [
          | none ↦ none
          | some last ↦ elim (until_quote last) [
            | none ↦ none
            | some (uuid, end) ↦ elim end [ [] ↦ some (user, uuid) | _ ∷ _ ↦ none ]
          ]
        ]
      ]
    ]

-- A text without a quote.
abbrev pub HasNoQuote : Bytes → Type 0
HasNoQuote text = All (λ b. (b == 39) ≡ false) text
