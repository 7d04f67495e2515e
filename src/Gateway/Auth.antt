-- ===== src/Gateway/Auth.antt =====
-- gateway/auth.hpp: who a client is. The file of credentials is read elsewhere. A token is the list of
-- its 32 bytes; the map keeps the newest entry of a participant in front.
use Prim.Native.Nat.{bit_or, bit_xor, bit_or-bitwise, bit_xor-bitwise, digits, differ, max}
use order_matching_engine.Base.{
  ℕ, zero, suc, ◌/◌, ◌%◌, ◌≤◌, ◌≡◌, ◌↔◌, refl, sym, ap, ap₂, ◌∙◌, List, [], ◌∷◌, Bool, true, false,
  ◌&&◌, Option, none, some, length, replicate, ◌==◌, if◌then◌else◌, elim_option, arith,
  Option-cases, inl, inr,
}
use order_matching_engine.Base.Int.{ℤ, eqb_ℤ}

pub record Credential : Type 0 where
  pub participant : ℤ
  pub token : List ℕ

pub record AuthHandler : Type 0 where
  pub creds : List Credential

unfoldable pub add_credential : AuthHandler → ℤ → List ℕ → AuthHandler
add_credential h id token = record { creds = record { participant = id; token = token } ∷ h.creds }

unfoldable pub find_token : List Credential → ℤ → Option (List ℕ)
find_token [] id = none
find_token (c ∷ cs) id = if eqb_ℤ c.participant id then some c.token else find_token cs id

-- The loop over the bytes.
unfoldable pub token_diff : ℕ → List ℕ → List ℕ → ℕ
token_diff diff [] token = diff
token_diff diff (e ∷ expected) [] = diff
token_diff diff (e ∷ expected) (t ∷ token) = token_diff (bit_or diff (bit_xor e t)) expected token

unfoldable pub found : Option (List ℕ) → Bool
found none = false
found (some t) = true

-- An unknown participant is compared with a dummy token, so that it takes as long.
unfoldable pub authenticate : AuthHandler → ℤ → List ℕ → Bool
authenticate h id token =
    let it = find_token h.creds id in
    let expected = elim_option it (replicate 32 0) (λ t. t) in
    found it && (token_diff 0 expected token == 0)

differ-zero : (x y : ℕ) → differ x y ≡ 0 → x ≡ y
differ-zero zero y e = sym e
differ-zero (suc x) zero e = e
differ-zero (suc x) (suc y) e = ap suc (differ-zero x y e)

xor_digits-zero : (n a b : ℕ) → a ≤ n → digits (λ k. k) differ n a b ≡ 0 → a ≡ b
xor_digits-zero zero zero b h e = sym e
xor_digits-zero zero (suc a) b h e = absurd (omega arith)
xor_digits-zero (suc n) zero b h e = sym e
xor_digits-zero (suc n) (suc a) b h e = omega (
  arith,
  xor_digits-zero n (suc a / 2) (b / 2) (omega arith) (omega arith),
  differ-zero (suc a % 2) (b % 2) (omega arith),
)

differ_self : (x : ℕ) → differ x x ≡ 0
differ_self zero = refl
differ_self (suc x) = differ_self x

xor_digits_self : (n a : ℕ) → a ≤ n → digits (λ k. k) differ n a a ≡ 0
xor_digits_self zero zero h = refl
xor_digits_self zero (suc a) h = absurd (omega arith)
xor_digits_self (suc n) zero h = refl
xor_digits_self (suc n) (suc a) h =
    omega (arith, xor_digits_self n (suc a / 2) (omega arith), differ_self (suc a % 2))

or_digits-zero : (n a b : ℕ) → a ≤ n → digits (λ k. k) max n a b ≡ 0 → (a ≡ 0) × (b ≡ 0)
or_digits-zero zero zero b h e = (refl, e)
or_digits-zero zero (suc a) b h e = absurd (omega arith)
or_digits-zero (suc n) zero b h e = (refl, e)
or_digits-zero (suc n) (suc a) b h e =
    let low = or_digits-zero n (suc a / 2) (b / 2) (omega arith) (omega arith) in
    (omega (arith, low.0, low.1), omega (arith, low.0, low.1))

bit_xor_iff : (a b : ℕ) → (bit_xor a b ≡ 0) ↔ (a ≡ b)
bit_xor_iff a b = (
  (λ e. xor_digits-zero a a b (omega arith) (sym (bit_xor-bitwise a b) ∙ e)),
  (λ e. ap (λ x. bit_xor a x) (sym e) ∙ bit_xor-bitwise a a ∙ xor_digits_self a a (omega arith)),
)

bit_or-zero : (a b : ℕ) → bit_or a b ≡ 0 → (a ≡ 0) × (b ≡ 0)
bit_or-zero a b e = or_digits-zero a a b (omega arith) (sym (bit_or-bitwise a b) ∙ e)

token_diff_start : (d : ℕ) (xs ys : List ℕ) → token_diff d xs ys ≡ 0 → d ≡ 0
unfolding token_diff
token_diff_start d [] ys e = e
token_diff_start d (x ∷ xs) [] e = e
token_diff_start d (x ∷ xs) (y ∷ ys) e =
    (bit_or-zero d (bit_xor x y) (token_diff_start (bit_or d (bit_xor x y)) xs ys e)).0

token_diff-eq : (d : ℕ) (xs ys : List ℕ) → length xs ≡ length ys → token_diff d xs ys ≡ 0 → xs ≡ ys
unfolding token_diff
token_diff-eq d [] [] n e = refl
token_diff-eq d [] (y ∷ ys) n e = absurd (omega arith)
token_diff-eq d (x ∷ xs) [] n e = absurd (omega arith)
token_diff-eq d (x ∷ xs) (y ∷ ys) n e =
    let here = bit_or-zero d (bit_xor x y) (token_diff_start (bit_or d (bit_xor x y)) xs ys e) in
    ap₂ ◌∷◌ ((bit_xor_iff x y).0 here.1)
      (token_diff-eq (bit_or d (bit_xor x y)) xs ys (omega arith) e)

token_diff_self : (xs : List ℕ) → token_diff 0 xs xs ≡ 0
unfolding token_diff
token_diff_self [] = refl
token_diff_self (x ∷ xs) =
    ap (λ k. token_diff (bit_or 0 k) xs xs) ((bit_xor_iff x x).1 refl) ∙ token_diff_self xs

-- Where the stored token of the participant, if there is one, is as long as the given one,
-- authentication succeeds just when the given token is the stored one.
pub authenticate_iff :
    (h : AuthHandler) (id : ℤ) (token : List ℕ)
    → ((t : List ℕ) → find_token h.creds id ≡ some t → length t ≡ length token)
    → (authenticate h id token ≡ true) ↔ (find_token h.creds id ≡ some token)
unfolding authenticate found
authenticate_iff h id token same = elim (Option-cases (find_token h.creds id)) [
  | inl e ↦ (rw e (λ f. absurd (ground (arith, f))), λ f. absurd (ground (arith, sym e ∙ f)))
  | inr (t, e) ↦ (
    λ f.
        e
        ∙ ap some (
            token_diff-eq 0 t token (same t e) (
              zero_of t token (
                sym (
                  ap
                    (λ o.
                      found o
                      && (token_diff 0 (elim_option o (replicate 32 0) (λ t. t)) token == 0))
                    e)
                ∙ f))),
    λ f.
        ap (λ o. found o && (token_diff 0 (elim_option o (replicate 32 0) (λ t. t)) token == 0)) f
        ∙ ap (λ k. k == 0) (token_diff_self token),
  )
]
  where
    zero_of : (t u : List ℕ) → (token_diff 0 t u == 0) ≡ true → token_diff 0 t u ≡ 0
    zero_of t u f = ground (arith, f)
