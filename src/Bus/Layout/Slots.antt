-- ===== src/Bus/Layout/Slots.antt =====
-- The slots of `build_layout`: no two columns with a block of their own share a word.
use native.Mathlib.Nat.{mod-eq_of_lt}
use hardware_wallet_benchmar.Prelude.{
  ℕ, zero, suc, List, [], ◌∷◌, ◌≡◌, ◌≢◌, refl, ap, ◌∙◌, arith, ◌+◌, ◌^◌, ◌<◌, ◌==◌, ==_apart, Bool,
  true, false, if◌then◌else◌, length, set, get_or, get_or-set_self, get_or-set_ne, length-set, map,
  u8, u32, Option, some, none, not, ◌<<<◌,
}
use hardware_wallet_benchmar.Transcript.Placement.{stack_offsets, place, sorted_order}
use hardware_wallet_benchmar.Tables.Columns.{nat_at, qkeccak}
use hardware_wallet_benchmar.Tables.Slots.{qkeccak_slot, is_keccak_output}
use hardware_wallet_benchmar.Bus.Slot.{Slot, no_slot}
use hardware_wallet_benchmar.Bus.Layout.{has_block, place_blocks, slot_of, slots_from, no_offset}

place_blocks-other :
    (blocks offsets kappas out : List ℕ) (placed c : ℕ)
    → ((a : ℕ) → a < length blocks → nat_at blocks a ≢ c)
    → nat_at (place_blocks blocks offsets kappas out placed).0 c ≡ nat_at out c
unfolding place_blocks
place_blocks-other [] offsets kappas out placed c h = refl
place_blocks-other (column ∷ blocks) [] kappas out placed c h = refl
place_blocks-other (column ∷ blocks) (offset ∷ offsets) [] out placed c h = refl
place_blocks-other (column ∷ blocks) (offset ∷ offsets) (kappa ∷ kappas) out placed c h =
    place_blocks-other blocks offsets kappas (set out column offset) (placed + 2 ^ kappa) c
      (λ a low. h (suc a) (omega arith))
    ∙ get_or-set_ne out column c offset 0 (h 0 (omega arith))

pub place_blocks-at :
    (blocks offsets kappas out : List ℕ) (placed a : ℕ)
    → length offsets ≡ length blocks
    → length kappas ≡ length blocks
    → ((b : ℕ) → b < length blocks → nat_at blocks b < length out)
    → ((b c : ℕ) → b < c → c < length blocks → nat_at blocks b < nat_at blocks c)
    → a < length blocks
    → nat_at (place_blocks blocks offsets kappas out placed).0 (nat_at blocks a) ≡ nat_at offsets a
unfolding place_blocks
place_blocks-at [] offsets kappas out placed a eo ek within rises h = absurd (omega arith)
place_blocks-at (column ∷ blocks) [] kappas out placed a eo ek within rises h = absurd (omega arith)
place_blocks-at (column ∷ blocks) (offset ∷ offsets) [] out placed a eo ek within rises h =
    absurd (omega arith)
place_blocks-at (column ∷ blocks) (offset ∷ offsets) (kappa ∷ kappas) out placed zero eo ek within
      rises h =
    place_blocks-other blocks offsets kappas (set out column offset) (placed + 2 ^ kappa) column
      (λ a low e.
        let later = rises 0 (suc a) (omega arith) (omega arith) in omega (arith, later, e))
    ∙ get_or-set_self out column offset 0 (within 0 (omega arith))
place_blocks-at (column ∷ blocks) (offset ∷ offsets) (kappa ∷ kappas) out placed (suc a) eo ek
      within rises h =
    place_blocks-at blocks offsets kappas (set out column offset) (placed + 2 ^ kappa) a
      (omega arith) (omega arith)
      (λ b low.
        let w = within (suc b) (omega arith) in omega (arith, w, length-set out column offset))
      (λ b c before low. rises (suc b) (suc c) (omega arith) (omega arith)) (omega arith)

length-place :
    (sizes order offsets : List ℕ) (total : ℕ)
    → length (place sizes order offsets total).0 ≡ length offsets
unfolding place
length-place sizes [] offsets total = refl
length-place sizes (index ∷ order) offsets total =
    length-place sizes order (set offsets index total) (total + 2 ^ nat_at sizes index)
    ∙ length-set offsets index total

pub length-stack_offsets :
    (sizes offsets : List ℕ) → length (stack_offsets sizes offsets).0 ≡ length offsets
unfolding stack_offsets
length-stack_offsets sizes offsets = length-place sizes (sorted_order sizes) offsets 0

pub nat_at-map :
    (kappas blocks : List ℕ) (a : ℕ)
    → a < length blocks
    → nat_at (map (λ c. nat_at kappas c) blocks) a ≡ nat_at kappas (nat_at blocks a)
nat_at-map kappas [] a h = absurd (omega arith)
nat_at-map kappas (c ∷ blocks) zero h = refl
nat_at-map kappas (c ∷ blocks) (suc a) h = nat_at-map kappas blocks a (omega arith)

unfoldable pub slot_at : List Slot → ℕ → Slot
slot_at slots c = get_or slots c no_slot

pub slots_from-at :
    (kappas offsets : List ℕ) (n column a : ℕ)
    → a < n
    → get_or (slots_from kappas offsets column n) a no_slot ≡ slot_of kappas offsets (column + a)
unfolding slots_from
slots_from-at kappas offsets zero column a h = absurd (omega arith)
slots_from-at kappas offsets (suc n) column zero h =
    let e : column ≡ column + 0 = omega arith in ap (slot_of kappas offsets) e
slots_from-at kappas offsets (suc n) column (suc a) h =
    let e : column + 1 + a ≡ column + suc a = omega arith in
    slots_from-at kappas offsets n (column + 1) a (omega arith) ∙ ap (slot_of kappas offsets) e

-- a column with a block is not one of the slots of q_keccak
has_block-none : (c : ℕ) → has_block c ≡ true → qkeccak_slot c ≡ none
unfolding has_block
has_block-none c h = after (qkeccak_slot c) h
  where
    after :
        (o : Option ℕ)
        → elim o as (λ _. Bool) [ some _ ↦ false | none ↦ not (is_keccak_output c) ] ≡ true
        → o ≡ none
    after none e = refl
    after (some s) e = absurd (cc e)

-- its slot is its offset and its size, where those fit
pub slot_of-block :
    (kappas offsets : List ℕ) (c : ℕ)
    → has_block c ≡ true
    → nat_at kappas c < 2 ^ 8
    → nat_at offsets c < 2 ^ 32
    → slot_of kappas offsets c ≡ record { variables = nat_at kappas c; index = nat_at offsets c }
unfolding slot_of
slot_of-block kappas offsets c h small low =
    let at_index : ℕ → Slot =
      λ index. record { variables = u8 (nat_at kappas c); index = u32 index } in
    let placed : nat_at offsets c ≢ no_offset = λ e. omega (arith, e) in
    ap
      (λ (o : Option ℕ). elim o [
        | some slot ↦ at_index (nat_at offsets qkeccak + slot <<< nat_at kappas c)
        | none ↦ if nat_at offsets c == no_offset then no_slot else at_index (nat_at offsets c)
      ])
      (has_block-none c h)
    ∙ ap (λ b. if b then no_slot else at_index (nat_at offsets c))
        (==_apart (nat_at offsets c) no_offset placed)
    ∙ (λ i. record { variables = mod-eq_of_lt small i; index = mod-eq_of_lt low i })
