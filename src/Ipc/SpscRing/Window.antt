-- ===== src/Ipc/SpscRing/Window.antt =====
-- The slots between two cursors.
use native.Mathlib.Nat.{mod-add-mod, mod-eq_of_lt, mod-eq-sub-mod, mod-lt}
use order_matching_engine.Base.{
  ℕ, zero, suc, ◌+◌, ◌-◌, ◌%◌, ◌<◌, ◌≤◌, ◌≡◌, ◌≢◌, refl, ap, ap₂, ◌∙◌, List, [], ◌∷◌, ◌++◌, Option,
  some, length, get_elem?, set, get_elem?-set_self, get_elem?-set_ne, arith, dec_lt,
}

-- Two cursors less than the capacity apart have different slots.
pub slots_apart : (cap a k : ℕ) → 0 < k → k < cap → (a + k) % cap ≢ a % cap
slots_apart cap a k pos small e =
    let low : a % cap < cap = mod-lt a (omega arith) in
    let turn : (a % cap + k) % cap ≡ a % cap = mod-add-mod a cap k ∙ e in
    elim (dec_lt (a % cap + k) cap) [
      | yes p ↦ omega (arith, mod-eq_of_lt p, turn)
      | no p ↦ omega (
        arith,
        turn,
        mod-eq-sub-mod {n = a % cap + k} {m = cap} (omega arith),
        mod-eq_of_lt {n = a % cap + k - cap} {m = cap} (omega arith),
      )
    ]

module _ {A : Type 0} where
  -- The `n` values from the cursor `c` on; a slot out of the storage has none.
  abbrev pub window : List A → ℕ → ℕ → ℕ → List (Option A)
  window s cap c zero = []
  window s cap c (suc n) = get_elem? s (c % cap) ∷ window s cap (c + 1) n

  pub length-window : (s : List A) (cap c n : ℕ) → length (window s cap c n) ≡ n
  length-window s cap c zero = refl
  length-window s cap c (suc n) = ap suc (length-window s cap (c + 1) n)

  -- A write to the slot of a cursor that is ahead by less than a round changes nothing of a window.
  pub window-set_ahead :
      (s : List A) (cap c n k : ℕ) (v : A)
      → n ≤ k
      → k < cap
      → window (set s ((c + k) % cap) v) cap c n ≡ window s cap c n
  window-set_ahead s cap c zero k v le lt = refl
  window-set_ahead s cap c (suc n) k v le lt =
      ap₂ ◌∷◌ (get_elem?-set_ne s v (slots_apart cap c k (omega arith) lt)) (
        ap (λ i. window (set s (i % cap) v) cap (c + 1) n) (omega arith)
        ∙ window-set_ahead s cap (c + 1) n (k - 1) v (omega arith) (omega arith))

  pub window-snoc :
      (s : List A) (cap c n : ℕ)
      → window s cap c (suc n) ≡ window s cap c n ++ (get_elem? s ((c + n) % cap) ∷ [])
  window-snoc s cap c zero = ap (λ i. get_elem? s (i % cap) ∷ []) (omega arith)
  window-snoc s cap c (suc n) =
      ap (λ xs. get_elem? s (c % cap) ∷ xs)
        (window-snoc s cap (c + 1) n
          ∙ ap (λ i. window s cap (c + 1) n ++ (get_elem? s (i % cap) ∷ [])) (omega arith))

  -- A write just behind a window makes it longer by the value.
  pub window-set :
      (s : List A) (cap c n : ℕ) (v : A)
      → length s ≡ cap
      → n < cap
      → window (set s ((c + n) % cap) v) cap c (suc n) ≡ window s cap c n ++ (some v ∷ [])
  window-set s cap c n v e lt =
      window-snoc (set s ((c + n) % cap) v) cap c n
      ∙ ap₂ (λ xs x. xs ++ (x ∷ [])) (window-set_ahead s cap c n n v (omega arith) lt)
          (get_elem?-set_self s ((c + n) % cap) v
            (omega (arith, e, mod-lt (c + n) {m = cap} (omega arith))))
