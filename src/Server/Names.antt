-- ===== src/Server/Names.antt =====
-- server.c: the name of a client, its descriptor in decimal, tells the descriptor.
use geekchatserver.Prelude.{
  ℕ, zero, suc, ◌+◌, ◌-◌, ◌*◌, ◌/◌, ◌%◌, ◌^◌, ◌<◌, ◌≡◌, refl, sym, ap, ◌∙◌, [], ◌∷◌, ◌++◌, arith,
  Bytes, codes, if◌then◌else◌, Bool, true, false, ◌==◌, ==_iff,
}
use geekchatserver.Server.Clients.{decimal_digits, fd_name}

-- The number that decimal digits stand for after the number `n`.
value_from : ℕ → Bytes → ℕ
value_from n [] = n
value_from n (digit ∷ digits) = value_from (n * 10 + (digit - b'0')) digits

value_from-append :
    (n : ℕ) (xs : Bytes) (digit : ℕ)
    → value_from n (xs ++ digit ∷ []) ≡ value_from n xs * 10 + (digit - b'0')
unfolding value_from
value_from-append n [] digit = refl
value_from-append n (x ∷ xs) digit = value_from-append (n * 10 + (x - b'0')) xs digit

value_from-if :
    (b : Bool) (xs ys : Bytes) (n : ℕ)
    → (b ≡ true → value_from 0 xs ≡ n)
    → (b ≡ false → value_from 0 ys ≡ n)
    → value_from 0 (if b then xs else ys) ≡ n
value_from-if true xs ys n first second = first refl
value_from-if false xs ys n first second = second refl

is_zero_lem : (n : ℕ) → (n == 0) ≡ true → 0 ≡ n
is_zero_lem n e = sym ((==_iff n 0).0 e)

value_from-decimal_digits : (fuel n : ℕ) → n < 10 ^ fuel → value_from 0 (decimal_digits fuel n) ≡ n
unfolding value_from decimal_digits
value_from-decimal_digits zero n less = omega (arith, less)
value_from-decimal_digits (suc fuel) n less =
    value_from-if (n == 0) [] (decimal_digits fuel (n / 10) ++ (b'0' + n % 10) ∷ []) n
      (λ e. is_zero_lem n e)
      (λ _.
        let high = value_from-decimal_digits fuel (n / 10) (high_less fuel n less) in
        value_from-append 0 (decimal_digits fuel (n / 10)) (b'0' + n % 10)
        ∙ joined (value_from 0 (decimal_digits fuel (n / 10))) n high)
  where
    high_less : (fuel n : ℕ) → n < 10 ^ suc fuel → n / 10 < 10 ^ fuel
    high_less fuel n less = omega (arith, less)

    joined : (high n : ℕ) → high ≡ n / 10 → high * 10 + (b'0' + n % 10 - b'0') ≡ n
    joined high n e = omega (arith, e)

value_from-fd_name : (fd : ℕ) → fd < 2 ^ 31 → value_from 0 (fd_name fd) ≡ fd
unfolding value_from fd_name decimal_digits
value_from-fd_name fd less =
    value_from-if (fd == 0) (codes "0") (decimal_digits 10 fd) fd (λ e. is_zero_lem fd e)
      (λ _. value_from-decimal_digits 10 fd (omega (arith, less)))

-- Two descriptors of the same name are the same.
pub fd_name-injective :
    (fd fd' : ℕ) → fd < 2 ^ 31 → fd' < 2 ^ 31 → fd_name fd ≡ fd_name fd' → fd ≡ fd'
fd_name-injective fd fd' less less' e =
    sym (value_from-fd_name fd less) ∙ ap (value_from 0) e ∙ value_from-fd_name fd' less'
