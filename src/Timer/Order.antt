-- ===== src/Timer/Order.antt =====
-- timer.c: the list stays ordered by timeout, with every timer in it once.
use geekchatserver.Prelude.{
  ℕ, ◌+◌, ◌≤◌, ◌≡◌, inl, inr, refl, ap, ◌∙◌, [], ◌∷◌, arith, leb, ◌&&◌, ◌||◌, not, Bool, true,
  false, ◌==◌, ==_iff, ==_self, leb→le, Bool-cases, some,
}
use geekchatserver.Timer.{
  Owner, client_timer, looper_timer, user_timer, same_owner, Cbtimer, TimersList,
  is_timer_effective, insert_to_timer_list, unlink, del_timer, delay_of, timer_at, add_timer,
  kick_timer, timeout_of,
}

pub same_owner-eq : (o p : Owner) → same_owner o p ≡ true → o ≡ p
unfolding same_owner
same_owner-eq (client_timer a) (client_timer b) h = ap client_timer ((==_iff a b).0 h)
same_owner-eq (client_timer a) (looper_timer b) h = cc
same_owner-eq (client_timer a) (user_timer b) h = cc
same_owner-eq (looper_timer a) (looper_timer b) h = ap looper_timer ((==_iff a b).0 h)
same_owner-eq (looper_timer a) (client_timer b) h = cc
same_owner-eq (looper_timer a) (user_timer b) h = cc
same_owner-eq (user_timer a) (user_timer b) h = ap user_timer ((==_iff a b).0 h)
same_owner-eq (user_timer a) (client_timer b) h = cc
same_owner-eq (user_timer a) (looper_timer b) h = cc

pub same_owner_self : (o : Owner) → same_owner o o ≡ true
unfolding same_owner
same_owner_self (client_timer a) = ==_self a
same_owner_self (looper_timer a) = ==_self a
same_owner_self (user_timer a) = ==_self a

==_comm : (a b : ℕ) → (a == b) ≡ (b == a)
==_comm a b = ground arith

pub same_owner_comm : (o p : Owner) → same_owner o p ≡ same_owner p o
unfolding same_owner
same_owner_comm (client_timer a) (client_timer b) = ==_comm a b
same_owner_comm (client_timer a) (looper_timer b) = refl
same_owner_comm (client_timer a) (user_timer b) = refl
same_owner_comm (looper_timer a) (looper_timer b) = ==_comm a b
same_owner_comm (looper_timer a) (client_timer b) = refl
same_owner_comm (looper_timer a) (user_timer b) = refl
same_owner_comm (user_timer a) (user_timer b) = ==_comm a b
same_owner_comm (user_timer a) (client_timer b) = refl
same_owner_comm (user_timer a) (looper_timer b) = refl

-- What is linked under one owner is linked under an owner that is the same.
linked_same :
    (ts : TimersList) (o p : Owner)
    → same_owner o p ≡ true
    → is_timer_effective ts o ≡ is_timer_effective ts p
linked_same ts o p h = ap (is_timer_effective ts) (same_owner-eq o p h)

same_owner_left : (o p q : Owner) → same_owner o p ≡ true → same_owner o q ≡ same_owner p q
same_owner_left o p q h = ap (λ (t : Owner). same_owner t q) (same_owner-eq o p h)

abbrev pub NotBefore : ℕ → TimersList → Type 0
NotBefore n [] = Unit
NotBefore n (t ∷ ts) = (n ≤ t.timeout) × NotBefore n ts

-- Ordered by timeout, and no timer linked twice.
abbrev pub IsOrdered : TimersList → Type 0
IsOrdered [] = Unit
IsOrdered (t ∷ ts) = NotBefore t.timeout ts × (is_timer_effective ts t.owner ≡ false) × IsOrdered ts

NotBefore-le : (m n : ℕ) (ts : TimersList) → m ≤ n → NotBefore n ts → NotBefore m ts
NotBefore-le m n [] h k = tt
NotBefore-le m n (t ∷ ts) h k = (omega arith, NotBefore-le m n ts h k.1)

NotBefore-insert :
    (n : ℕ) (timer : Cbtimer) (ts : TimersList)
    → n ≤ timer.timeout
    → NotBefore n ts
    → NotBefore n (insert_to_timer_list timer ts)
unfolding insert_to_timer_list
NotBefore-insert n timer [] h k = (h, tt)
NotBefore-insert n timer (t ∷ ts) h k = ground (arith, NotBefore-insert n timer ts h)

-- Linking a timer adds its owner to the linked ones and no other.
pub is_timer_effective-insert :
    (timer : Cbtimer) (ts : TimersList) (o : Owner)
    → is_timer_effective (insert_to_timer_list timer ts) o
      ≡ (same_owner timer.owner o || is_timer_effective ts o)
unfolding insert_to_timer_list is_timer_effective
is_timer_effective-insert timer [] o = refl
is_timer_effective-insert timer (t ∷ ts) o = ground (arith, is_timer_effective-insert timer ts o)

pub insert-IsOrdered :
    (timer : Cbtimer) (ts : TimersList)
    → is_timer_effective ts timer.owner ≡ false
    → IsOrdered ts
    → IsOrdered (insert_to_timer_list timer ts)
unfolding insert_to_timer_list is_timer_effective
insert-IsOrdered timer [] out h = (tt, refl, tt)
insert-IsOrdered timer (t ∷ ts) out h = elim (Bool-cases (leb timer.timeout t.timeout)) [
  | inl e ↦ rw e (
    (
      omega (arith, leb→le timer.timeout t.timeout e),
      NotBefore-le timer.timeout t.timeout ts (leb→le timer.timeout t.timeout e) h.0,
    ),
    out,
    h,
  )
  | inr e ↦ rw e (
    NotBefore-insert t.timeout timer ts (ground arith) h.0,
    is_timer_effective-insert timer ts t.owner
        ∙ ground (arith, same_owner_comm timer.owner t.owner),
    insert-IsOrdered timer ts (ground arith) h.2,
  )
]

NotBefore-unlink :
    (n : ℕ) (ts : TimersList) (o : Owner) → NotBefore n ts → NotBefore n (unlink ts o)
unfolding unlink
NotBefore-unlink n [] o h = tt
NotBefore-unlink n (t ∷ ts) o h = ground (arith, NotBefore-unlink n ts o)

-- Unlinking takes out that timer and no other.
pub is_timer_effective-unlink :
    (ts : TimersList) (o p : Owner)
    → IsOrdered ts
    → is_timer_effective (unlink ts o) p ≡ (not (same_owner o p) && is_timer_effective ts p)
unfolding unlink is_timer_effective
is_timer_effective-unlink [] o p h = ground arith
is_timer_effective-unlink (t ∷ ts) o p h = ground (
  arith,
  is_timer_effective-unlink ts o p h.2,
  same_owner_left t.owner o p,
  linked_same ts t.owner p,
)

pub unlink-IsOrdered : (ts : TimersList) (o : Owner) → IsOrdered ts → IsOrdered (unlink ts o)
unfolding unlink is_timer_effective
unlink-IsOrdered [] o h = tt
unlink-IsOrdered (t ∷ ts) o h = elim (Bool-cases (same_owner t.owner o)) [
  | inl e ↦ rw e h.2
  | inr e ↦ rw e (
    NotBefore-unlink t.timeout ts o h.0,
    is_timer_effective-unlink ts o t.owner h.2 ∙ ground arith,
    unlink-IsOrdered ts o h.2,
  )
]

-- Adding a timer that is not linked succeeds, keeps the order, and links it and no other.
pub add_timer_lem :
    (now : ℕ) (ts : TimersList) (o : Owner) (delay : ℕ)
    → IsOrdered ts
    → is_timer_effective ts o ≡ false
    → (ts' : TimersList) × (add_timer now ts o delay ≡ some ts')
      × IsOrdered ts'
      × ((p : Owner) → is_timer_effective ts' p ≡ (same_owner o p || is_timer_effective ts p))
unfolding add_timer
add_timer_lem now ts o delay h out = (
  insert_to_timer_list (timer_at o now delay) ts,
  rw out,
  insert-IsOrdered (timer_at o now delay) ts out h,
  λ p. is_timer_effective-insert (timer_at o now delay) ts p,
)

-- Deleting a linked timer succeeds, keeps the order, and unlinks it and no other.
pub del_timer_lem :
    (ts : TimersList) (o : Owner)
    → IsOrdered ts
    → is_timer_effective ts o ≡ true
    → (ts' : TimersList) × (del_timer ts o ≡ some ts')
      × IsOrdered ts'
      × ((p : Owner) → is_timer_effective ts' p ≡ (not (same_owner o p) && is_timer_effective ts p))
unfolding del_timer
del_timer_lem ts o h linked =
    (unlink ts o, rw linked, unlink-IsOrdered ts o h, λ p. is_timer_effective-unlink ts o p h)

timeout_of-insert :
    (timer : Cbtimer) (ts : TimersList)
    → is_timer_effective ts timer.owner ≡ false
    → timeout_of (insert_to_timer_list timer ts) timer.owner ≡ some timer.timeout
unfolding insert_to_timer_list is_timer_effective timeout_of
timeout_of-insert timer [] out = rw (same_owner_self timer.owner)
timeout_of-insert timer (t ∷ ts) out =
    ground (arith, timeout_of-insert timer ts, same_owner_self timer.owner)

pub unlinked :
    (ts : TimersList) (o : Owner) → IsOrdered ts → is_timer_effective (unlink ts o) o ≡ false
unlinked ts o h = is_timer_effective-unlink ts o o h ∙ rw (same_owner_self o)

pub relinked :
    (ts : TimersList) (o p : Owner)
    → is_timer_effective ts o ≡ true
    → (same_owner o p || (not (same_owner o p) && is_timer_effective ts p))
      ≡ is_timer_effective ts p
relinked ts o p linked = ground (arith, linked_same ts o p)

-- Kicking a linked timer succeeds, keeps the order and the set of linked timers, and moves its
-- timeout to its own delay from now.
pub kick_timer_lem :
    (now : ℕ) (ts : TimersList) (o : Owner)
    → IsOrdered ts
    → is_timer_effective ts o ≡ true
    → (ts' : TimersList) × (kick_timer now ts o ≡ some ts')
      × IsOrdered ts'
      × ((p : Owner) → is_timer_effective ts' p ≡ is_timer_effective ts p)
      × (timeout_of ts' o ≡ some (now + delay_of ts o))
unfolding kick_timer
kick_timer_lem now ts o h linked =
    let timer = timer_at o now (delay_of ts o) in
    (
      insert_to_timer_list timer (unlink ts o),
      ground arith,
      insert-IsOrdered timer (unlink ts o) (unlinked ts o h) (unlink-IsOrdered ts o h),
      λ p.
          is_timer_effective-insert timer (unlink ts o) p
          ∙ ap (λ (t : Bool). same_owner o p || t) (is_timer_effective-unlink ts o p h)
          ∙ relinked ts o p linked,
      timeout_of-insert timer (unlink ts o) (unlinked ts o h),
    )
