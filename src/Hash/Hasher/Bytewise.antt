-- ===== src/Hash/Hasher/Bytewise.antt =====
-- `Hasher::update` takes whole words where it can; it is the same as byte after byte, so it does not
-- matter how an input is cut.
use hardware_wallet_benchmar.Prelude.{
  ℕ, zero, suc, List, [], ◌∷◌, ◌++◌, ◌≡◌, ◌≢◌, refl, sym, ap, ◌∙◌, arith, ◌+◌, ◌*◌, ◌%◌, ◌≤◌, ◌<◌,
  bit_or, u64, ◌<<<◌, Bool, ◌&&◌, ◌==◌, leb, leb→le, ==_iff, ==_false, ==_apart, Bool-cases, inl,
  inr, if◌then◌else◌, length, take, drop, take-append-drop, length-take, length-drop, from_le_bytes,
}
use hardware_wallet_benchmar.Hash.Hasher.{
  Hasher, flush_word, flush_block, end_lane, absorb_byte, absorb_word, update_loop, update,
}
use hardware_wallet_benchmar.Bits.Linear.{both_left, both_right}
use mathlib.Core.List.{append_assoc}
use hardware_wallet_benchmar.Hash.Digest.RoundTrip.{
  AllBytes, no_bytes, byte, take-AllBytes, drop-AllBytes,
}
use hardware_wallet_benchmar.Hash.Hasher.Lane.{snoc-AllBytes, length-snoc, next_byte}

-- the reference: byte after byte
unfoldable pub bytewise : Hasher → List ℕ → Hasher
bytewise h [] = h
bytewise h (b ∷ bytes) = bytewise (absorb_byte h b) bytes

pub bytewise-append :
    (h : Hasher) (xs ys : List ℕ) → bytewise (bytewise h xs) ys ≡ bytewise h (xs ++ ys)
unfolding bytewise
bytewise-append h [] ys = refl
bytewise-append h (x ∷ xs) ys = bytewise-append (absorb_byte h x) xs ys

-- between two lanes no byte waits
unfoldable pub Ready : Hasher → Type 0
Ready h = h.filled % 8 ≡ 0 → h.word ≡ 0

end_lane-word : (h : Hasher) → (end_lane h).word ≡ 0
unfolding end_lane flush_word flush_block
end_lane-word h = ground arith

absorb_byte-Ready : (h : Hasher) (b : ℕ) → Ready (absorb_byte h b)
unfolding absorb_byte Ready
absorb_byte-Ready h b zeroth =
    let h' : Hasher = record h {
      word = bit_or h.word (u64 (b <<< (8 * (h.filled % 8))));
      filled = h.filled + 1;
    } in
    let at : Bool → Hasher = λ c. if c then end_lane h' else h' in
    elim (Bool-cases (h'.filled % 8 == 0)) [
      | inl whole ↦ ap (λ c. (at c).word) whole ∙ end_lane-word h'
      | inr part ↦
          absurd (==_false (h'.filled % 8) 0 part (ap (λ c. (at c).filled % 8) (sym part) ∙ zeroth))
    ]

pub bytewise-Ready : (h : Hasher) (bytes : List ℕ) → Ready h → Ready (bytewise h bytes)
unfolding bytewise
bytewise-Ready h [] r = r
bytewise-Ready h (b ∷ bytes) r = bytewise-Ready (absorb_byte h b) bytes (absorb_byte-Ready h b)

-- `bytes` of a lane absorbed
abbrev partial : Hasher → List ℕ → Hasher
partial h bytes = record h { word = from_le_bytes bytes; filled = h.filled + length bytes }

module _ (h : Hasher) (aligned : h.filled % 8 ≡ 0) where
  lane_byte :
      (bytes : List ℕ) (b : ℕ)
      → AllBytes bytes
      → b < 256
      → length bytes < 8
      → absorb_byte (partial h bytes) b ≡ (
          if length bytes == 7
          then end_lane (partial h (bytes ++ (b ∷ [])))
          else partial h (bytes ++ (b ∷ [])))
  unfolding absorb_byte
  lane_byte bytes b hb low short =
      let n = length bytes in
      let made : ℕ → ℕ → Bool → Hasher = λ w f c.
        if c
        then end_lane (record h { word = w; filled = f })
        else record h { word = w; filled = f } in
      let place : (h.filled + n) % 8 ≡ n = omega arith in
      let word : bit_or (from_le_bytes bytes) (u64 (b <<< (8 * ((h.filled + n) % 8))))
          ≡ from_le_bytes (bytes ++ (b ∷ [])) =
        ap (λ k. bit_or (from_le_bytes bytes) (u64 (b <<< (8 * k)))) place
        ∙ next_byte bytes b hb low short in
      let count : h.filled + n + 1 ≡ h.filled + length (bytes ++ (b ∷ [])) =
        omega (arith, length-snoc bytes b) in
      let test : ((h.filled + n + 1) % 8 == 0) ≡ (n == 7) = ground arith in
      λ i. made (word i) (count i) (test i)

  -- the last bytes of a lane
  lane_bytes :
      (bytes rest : List ℕ) (b : ℕ)
      → AllBytes bytes
      → AllBytes (b ∷ rest)
      → length bytes + suc (length rest) ≡ 8
      → bytewise (partial h bytes) (b ∷ rest) ≡ end_lane (partial h (bytes ++ (b ∷ rest)))
  unfolding bytewise
  lane_bytes bytes [] b hb (byte low _) size =
      let seven : length bytes ≡ 7 = omega arith in
      lane_byte bytes b hb low (omega arith)
      ∙ ap
          (λ c.
            if c then end_lane (partial h (bytes ++ (b ∷ []))) else partial h (bytes ++ (b ∷ [])))
          ((==_iff (length bytes) 7).1 seven)
  lane_bytes bytes (c ∷ rest) b hb (byte low more) size =
      let bytes' = bytes ++ (b ∷ []) in
      let fewer : length bytes ≢ 7 = λ seven. omega arith in
      ap (λ x. bytewise x (c ∷ rest))
        (lane_byte bytes b hb low (omega arith)
          ∙ ap (λ d. if d then end_lane (partial h bytes') else partial h bytes')
              (==_apart (length bytes) 7 fewer))
      ∙ lane_bytes bytes' rest c (snoc-AllBytes bytes b hb low) more
          (omega (arith, length-snoc bytes b))
      ∙ ap (λ x. end_lane (partial h x)) (append_assoc bytes (b ∷ []) (c ∷ rest))

  -- a whole lane at once is its eight bytes
  absorb_word-bytewise :
      (bytes : List ℕ)
      → h.word ≡ 0
      → AllBytes bytes
      → length bytes ≡ 8
      → absorb_word h bytes ≡ bytewise h bytes
  unfolding absorb_word from_le_bytes
  absorb_word-bytewise [] none_waits hb size = absurd (omega arith)
  absorb_word-bytewise (b ∷ rest) none_waits hb size =
      let whole = lane_bytes [] rest b no_bytes hb (omega arith) in
      let from : h.filled + 0 ≡ h.filled = omega arith in
      let start : partial h [] ≡ h = λ i. record h { word = sym none_waits i; filled = from i } in
      let end : h.filled + 8 ≡ h.filled + length (b ∷ rest) = omega arith in
      (λ i. end_lane (record h { word = from_le_bytes (b ∷ rest); filled = end i }))
      ∙ sym whole
      ∙ ap (λ x. bytewise x (b ∷ rest)) start

update_loop-bytewise :
    (fuel : ℕ) (h : Hasher) (bytes : List ℕ)
    → length bytes ≤ fuel
    → Ready h
    → AllBytes bytes
    → update_loop fuel h bytes ≡ bytewise h bytes
unfolding update_loop bytewise Ready absorb_word
update_loop-bytewise zero h [] small r hb = refl
update_loop-bytewise zero h (b ∷ bytes) small r hb = absurd (omega arith)
update_loop-bytewise (suc fuel) h [] small r hb = refl
update_loop-bytewise (suc fuel) h (b ∷ bytes) small r (byte low hb) =
    let all = b ∷ bytes in
    let by_word = update_loop fuel (absorb_word h (take 8 all)) (drop 8 all) in
    let by_byte = update_loop fuel (absorb_byte h b) bytes in
    let aligned = h.filled % 8 == 0 in
    let long = leb 8 (length all) in
    let run = λ (c : Bool). if c then by_word else by_byte in
    elim (Bool-cases (aligned && long)) [
      | inl eight ↦
          let at = (==_iff (h.filled % 8) 0).0 (both_left aligned long eight) in
          let size = leb→le 8 (length all) (both_right aligned long eight) in
          ap run eight
          ∙ update_loop-bytewise fuel (absorb_word h (take 8 all)) (drop 8 all)
              (omega (arith, length-drop 8 all)) (λ _. end_lane-word _)
              (drop-AllBytes 8 all (byte low hb))
          ∙ ap (λ x. bytewise x (drop 8 all))
              (absorb_word-bytewise h at (take 8 all) (r at) (take-AllBytes 8 all (byte low hb))
                (omega (arith, length-take 8 all)))
          ∙ bytewise-append h (take 8 all) (drop 8 all)
          ∙ ap (bytewise h) (take-append-drop 8 all)
      | inr one ↦
          ap run one
          ∙ update_loop-bytewise fuel (absorb_byte h b) bytes (omega arith) (absorb_byte-Ready h b)
              hb
    ]

pub update-bytewise :
    (h : Hasher) (bytes : List ℕ) → Ready h → AllBytes bytes → update h bytes ≡ bytewise h bytes
unfolding update
update-bytewise h bytes r hb = update_loop-bytewise (length bytes) h bytes (omega arith) r hb
