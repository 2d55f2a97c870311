-- ===== src/Invariant/Named.antt =====
-- server.c: the map of clients leads to clients in memory, and memory that is given out is new.
use geekchatserver.Prelude.{
  ℕ, ◌≤◌, ◌<◌, ◌≡◌, inl, inr, refl, sym, ap, ◌∙◌, subst, arith, Bytes, same, true, false, ◌==◌,
  ==_iff, Bool-cases, Option-cases, Option, none, some,
}
use mathlib.Core.Option.{some-injective}
use geekchatserver.Platform.{Platform}
use geekchatserver.State.{Client, update}
use geekchatserver.Tokens.Registry.{put_or_keep}

-- Every client lies below the next address.
abbrev pub Fresh : ℕ → (ℕ → Option Client) → Type 0
Fresh n clients = (c : ℕ) (ct : Client) → clients c ≡ some ct → c < n

module _ ⦃p : Platform⦄ where
  -- Every name in the map is that of a client in memory.
  abbrev pub Named : p.Map → (ℕ → Option Client) → Type 0
  Named m clients =
      (k : Bytes) (c : ℕ)
      → p.hashmap_get m k ≡ some c
      → (ct : Client) × (clients c ≡ some ct) × (same ct.name k ≡ true)

  -- No name in the map leads to this address.
  abbrev pub Unnamed : p.Map → ℕ → Type 0
  Unnamed m c = (k : Bytes) → p.hashmap_get m k ≡ some c → ⊥

  none_some : {A B : Type 0} {a : A} → none ≡ some a → B
  none_some e = absurd (contrary e)
    where
      contrary : {A : Type 0} {a : A} → none ≡ some a → ⊥
      contrary e = cc

  module _ (m : p.Map) (clients : ℕ → Option Client) (named : Named m clients) where
    pub Named-edited :
        (c : ℕ) (ct ct' : Client)
        → clients c ≡ some ct
        → ct'.name ≡ ct.name
        → Named m (update clients c (some ct'))
    Named-edited c ct ct' known same_name k c' found = elim (Bool-cases (c == c')) [
      | inl e ↦
          let (ct1, known1, name1) = named k c' found in
          let equal : ct ≡ ct1 =
            some-injective ct ct1 (sym known ∙ ap clients ((==_iff c c').0 e) ∙ known1) in
          (
            ct',
            rw e refl,
            ap (λ (n : Bytes). same n k) (same_name ∙ ap (λ (t : Client). t.name) equal) ∙ name1,
          )
      | inr e ↦ let (ct1, known1, name1) = named k c' found in (ct1, rw e known1, name1)
    ]

    pub Named-other : (c : ℕ) (o : Option Client) → Unnamed m c → Named m (update clients c o)
    Named-other c o out k c' found = elim (Bool-cases (c == c')) [
      | inl e ↦ absurd (out k (found ∙ ap some (sym ((==_iff c c').0 e))))
      | inr e ↦ let (ct1, known1, name1) = named k c' found in (ct1, rw e known1, name1)
    ]

    pub Named-removed : (name : Bytes) → Named (p.hashmap_remove m name).1 clients
    Named-removed name k c found = elim (Bool-cases (same name k)) [
      | inl e ↦ none_some (sym (p.get_remove m name k ∙ rw e refl) ∙ found)
      | inr e ↦ named k c (sym (p.get_remove m name k ∙ rw e refl) ∙ found)
    ]

    pub Unnamed-removed :
        (c : ℕ) (ct : Client) → clients c ≡ some ct → Unnamed (p.hashmap_remove m ct.name).1 c
    Unnamed-removed c ct known k found = elim (Bool-cases (same ct.name k)) [
      | inl e ↦ none_some (sym (p.get_remove m ct.name k ∙ rw e refl) ∙ found)
      | inr e ↦
          let (ct1, known1, name1) =
            named k c (sym (p.get_remove m ct.name k ∙ rw e refl) ∙ found) in
          let equal = some-injective ct ct1 (sym known ∙ known1) in
          contrary (sym e ∙ ap (λ (t : Client). same t.name k) equal ∙ name1)
    ]
      where
        contrary : false ≡ true → ⊥
        contrary e = cc

    Named-put :
        (c : ℕ) (ct : Client) (m' : p.Map)
        → clients c ≡ some ct
        → p.hashmap_put m ct.name c ≡ some m'
        → Named m' clients
    Named-put c ct m' known put k c' found = elim (Bool-cases (same ct.name k)) [
      | inl e ↦
          let equal =
            some-injective c c' (sym (p.get_put m m' ct.name k c put ∙ rw e refl) ∙ found) in
          (ct, ap clients (sym equal) ∙ known, e)
      | inr e ↦ named k c' (sym (p.get_put m m' ct.name k c put ∙ rw e refl) ∙ found)
    ]

    pub Named-put_or_keep :
        (c : ℕ) (ct : Client) → clients c ≡ some ct → Named (put_or_keep m ct.name c) clients
    Named-put_or_keep c ct known = elim (Option-cases (p.hashmap_put m ct.name c)) [
      | inl e ↦ rw (e, put_or_keep) named
      | inr (m', e) ↦ rw (e, put_or_keep) (Named-put c ct m' known e)
    ]

  -- Memory that is not in use is not in the map.
  pub Unnamed-vacant :
      (m : p.Map) (clients : ℕ → Option Client) (c : ℕ)
      → Named m clients
      → clients c ≡ none
      → Unnamed m c
  Unnamed-vacant m clients c named vacant k found =
      let (ct1, known1, _) = named k c found in none_some (sym vacant ∙ known1)

  pub Fresh-set :
      (n : ℕ) (clients : ℕ → Option Client) (c : ℕ) (ct : Client)
      → c < n
      → Fresh n clients
      → Fresh n (update clients c (some ct))
  Fresh-set n clients c ct below fresh c' ct' known = elim (Bool-cases (c == c')) [
    | inl e ↦ subst (λ (k : ℕ). k < n) ((==_iff c c').0 e) below
    | inr e ↦ fresh c' ct' (sym (rw e refl) ∙ known)
  ]

  pub Fresh-freed :
      (n : ℕ) (clients : ℕ → Option Client) (c : ℕ)
      → Fresh n clients
      → Fresh n (update clients c none)
  Fresh-freed n clients c fresh c' ct' known = elim (Bool-cases (c == c')) [
    | inl e ↦ none_some (sym (rw e refl) ∙ known)
    | inr e ↦ fresh c' ct' (sym (rw e refl) ∙ known)
  ]

pub Fresh-next : (n : ℕ) (clients : ℕ → Option Client) → Fresh n clients → clients n ≡ none
Fresh-next n clients fresh = elim (Option-cases (clients n)) [
  | inl e ↦ e
  | inr (ct, e) ↦ absurd (omega (arith, fresh n ct e))
]

pub Fresh-le : (n k : ℕ) (clients : ℕ → Option Client) → n ≤ k → Fresh n clients → Fresh k clients
Fresh-le n k clients h fresh c ct known = omega (arith, fresh c ct known)
