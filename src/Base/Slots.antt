-- ===== src/Base/Slots.antt =====
-- Arrays used as rings: the packet slots of src/hw/usbf.c and src/hw/el3.c, the receive ring of
-- src/hw/modem.c.
use native.Mathlib.Nat.{mod-add-mod, mod-eq_of_lt, mod-mod}
use mathlib.Core.Path.{ap₂}
use be.Base.{
  ℕ, zero, suc, ◌+◌, ◌-◌, ◌%◌, ◌≤◌, ◌<◌, ◌≡◌, ◌≢◌, refl, sym, ap, ◌∙◌, List, [], ◌∷◌, ◌++◌, ◌==◌,
  if_elim, if◌then◌else◌, length, get_or, arith,
}

module _ {ℓ} {A : Type ℓ} where
  -- Entry `i` replaced.
  abbrev pub updated : (ℕ → A) → ℕ → A → ℕ → A
  updated f i x = λ (j : ℕ). if j == i then x else f j

  -- The `n` elements from `i` on.
  abbrev pub elements : (ℕ → A) → ℕ → ℕ → List A
  elements f i zero = []
  elements f i (suc n) = f i ∷ elements f (i + 1) n

  -- The `n` slots from `s` on, going round at `cap`.
  abbrev pub items : (ℕ → A) → ℕ → ℕ → ℕ → List A
  items f cap s zero = []
  items f cap s (suc n) = f (s % cap) ∷ items f cap (s + 1) n

module _ {ℓ} {A : Type ℓ} where
  pub items_mod :
      (f : ℕ → A) (cap s t n : ℕ) → s % cap ≡ t % cap → items f cap s n ≡ items f cap t n
  items_mod f cap s t zero e = refl
  items_mod f cap s t (suc n) e = ap₂ ◌∷◌ (ap f e) (items_mod f cap (s + 1) (t + 1) n next)
    where
      next : (s + 1) % cap ≡ (t + 1) % cap
      next = sym (mod-add-mod s cap 1) ∙ ap (λ (k : ℕ). (k + 1) % cap) e ∙ mod-add-mod t cap 1

  items_snoc :
      (f : ℕ → A) (cap s n : ℕ)
      → items f cap s (suc n) ≡ items f cap s n ++ (f ((s + n) % cap) ∷ [])
  items_snoc f cap s zero = ap (λ (k : ℕ). f (k % cap) ∷ []) (omega arith)
  items_snoc f cap s (suc n) =
      ap (λ l. f (s % cap) ∷ l)
        (items_snoc f cap (s + 1) n
          ∙ ap (λ (k : ℕ). items f cap (s + 1) n ++ (f (k % cap) ∷ [])) (omega arith))

  put_self : (f : ℕ → A) (i : ℕ) (x : A) → updated f i x i ≡ x
  put_self f i x = if_elim (λ (y : A). y ≡ x) (i == i) (λ _. refl) (λ ne. absurd (ground arith))

  put_ne : (f : ℕ → A) (i j : ℕ) (x : A) → j ≢ i → updated f i x j ≡ f j
  put_ne f i j x ne =
      if_elim (λ (y : A). y ≡ f j) (j == i) (λ same. absurd (ground arith)) (λ _. refl)

  items_put :
      (f : ℕ → A) (cap s n at : ℕ) (x : A)
      → s + n ≤ at
      → at < s + cap
      → items (updated f (at % cap) x) cap s n ≡ items f cap s n
  items_put f cap s zero at x p q = refl
  items_put f cap s (suc n) at x p q =
      ap₂ ◌∷◌ (put_ne f (at % cap) (s % cap) x (λ e. apart e))
        (items_put f cap (s + 1) n at x (omega arith) (omega arith))
    where
      apart : s % cap ≢ at % cap
      apart e = grind arith

  -- A write past the used slots adds an item at their end.
  pub items_append :
      (f : ℕ → A) (cap s n : ℕ) (x : A)
      → n < cap
      → items (updated f ((s + n) % cap) x) cap s (n + 1) ≡ items f cap s n ++ (x ∷ [])
  items_append f cap s n x room =
      ap (λ (k : ℕ). items (updated f ((s + n) % cap) x) cap s k) {y = suc n} (omega arith)
      ∙ items_snoc (updated f ((s + n) % cap) x) cap s n
      ∙ ap₂ (λ l y. l ++ (y ∷ [])) (items_put f cap s n (s + n) x (omega arith) (omega arith))
          (put_self f ((s + n) % cap) x)

  -- The first used slot, and the others.
  pub items_first :
      (f : ℕ → A) (cap s n : ℕ)
      → s < cap
      → 0 < n
      → items f cap s n ≡ f s ∷ items f cap ((s + 1) % cap) (n - 1)
  items_first f cap s zero small some_used = elim some_used [ ]
  items_first f cap s (suc n) small some_used = ap₂ ◌∷◌ (ap f (mod-eq_of_lt small)) (
      items_mod f cap (s + 1) ((s + 1) % cap) n (sym (mod-mod _ _))
      ∙ ap (λ (k : ℕ). items f cap ((s + 1) % cap) k) (omega arith))

  -- A list copied into an array and read back.
  pub elements-get_or :
      (xs : List A) (f : ℕ → A) (d : A) (i : ℕ)
      → ((k : ℕ) → k < length xs → f (i + k) ≡ get_or xs k d)
      → elements f i (length xs) ≡ xs
  elements-get_or [] f d i h = refl
  elements-get_or (x ∷ xs) f d i h =
      ap₂ ◌∷◌ (ap f (omega arith) ∙ h 0 (omega arith))
        (elements-get_or xs f d (i + 1) (λ k lt. ap f (omega arith) ∙ h (suc k) (omega arith)))
