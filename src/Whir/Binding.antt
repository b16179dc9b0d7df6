-- ===== src/Whir/Binding.antt =====
-- `open_rows` against a tree: what is opened under the tree's root is the tree's, unless the prover has
-- found something else that hashes to a digest of it.
use hardware_wallet_benchmar.Prelude.{
  ℕ, zero, suc, List, [], ◌∷◌, ◌≡◌, refl, sym, ap, ◌∙◌, arith, ◌+◌, ◌*◌, ◌/◌, ◌%◌, ◌^◌, ◌<◌, ◌⊎◌,
  inl, inr, bit_or, Bool, true, false, ◌==◌, ◌&&◌, ==_iff, ==_false, Bool-cases, if◌then◌else◌,
  subst,
}
use hardware_wallet_benchmar.Error.{Result, ok, err, ok-inj, err_ne-ok}
use hardware_wallet_benchmar.Hash.Hasher.{hash_pair}
use hardware_wallet_benchmar.Hash.Digest.{Digest}
use hardware_wallet_benchmar.Hash.Digest.Bytes.{IsBytes, hash_pair-IsBytes}
use hardware_wallet_benchmar.Transcript.Source.{Source, Piece}
use hardware_wallet_benchmar.Transcript.Monad.{Transcript, M, ◌>>=◌, pure, bind-ok}
use hardware_wallet_benchmar.Transcript.Ops.{read}
use hardware_wallet_benchmar.Whir.Merkle.{Node, paired, with_sibling, climb_level, climb, is_root}
use hardware_wallet_benchmar.Whir.Tree.{
  Tree, node_digest, SecondPreimage, children, or_one, half-lt, bytes_eq-eq,
}

-- a source that serves as many bytes as it is asked for: what the type `&mut [u8]` of `read` says
unfoldable pub Serves : {S : Type 0} → Source S → Type 0
Serves {S = S} src =
    (piece : Piece) (n : ℕ) (s s' : S) (bytes : List ℕ)
    → src.read piece n s ≡ ok (bytes, s')
    → IsBytes n bytes

-- `P` of the index and the digest of every node
unfoldable pub EachNode : (ℕ → List ℕ → Type 0) → List Node → Type 0
EachNode P [] = Unit {0}
EachNode P ((index, digest) ∷ nodes) = P index digest × EachNode P nodes

-- a node of a level of `2^n`
abbrev pub Fits : ℕ → ℕ → List ℕ → Type 0
Fits n index digest = (index < 2 ^ n) × IsBytes 32 digest

and_both : (a b : Bool) → (a && b) ≡ true → (a ≡ true) × (b ≡ true)
and_both true b h = (refl, h)
and_both false b h = cc

module _ {S : Type 0} (src : Source S) (serves : Serves src) where
  pub read-IsBytes :
      (piece : Piece) (n : ℕ) (t t' : Transcript S) (bytes : List ℕ)
      → read src piece n t ≡ ok (bytes, t')
      → IsBytes n bytes
  unfolding read Serves
  read-IsBytes piece n t t' bytes e = of (src.read piece n t.source) refl e
    where
      of :
          (r : Result (List ℕ × S))
          → src.read piece n t.source ≡ r
          → elim r as (λ _. Result (List ℕ × Transcript S)) [
            | ok (b, s) ↦ ok (b, record t { source = s })
            | err e' ↦ err e'
          ]
            ≡ ok (bytes, t')
          → IsBytes n bytes
      of (ok (b, s)) p q =
          subst (IsBytes n) (ap (λ x. x.0) (ok-inj q)) (serves piece n t.source s b p)
      of (err e') p q = absurd (err_ne-ok q)

  -- the code's test of a pair
  paired_children :
      (index other : ℕ)
      → paired src index other ≡ true
      → (2 * (index / 2) ≡ index) × (2 * (index / 2) + 1 ≡ other)
  paired_children index other h =
      let (even, next) = and_both (index % 2 == 0) (other == bit_or index 1) h in
      let e : index % 2 ≡ 0 = (==_iff (index % 2) 0).0 even in
      let f : other ≡ bit_or index 1 = (==_iff other (bit_or index 1)).0 next in
      (omega (arith, e), omega (arith, e, f, or_one index e))

  module _ (tree : Tree) where
    abbrev pub Honest : ℕ → ℕ → List ℕ → Type 0
    Honest k index digest = digest ≡ node_digest tree k index

    abbrev pub Claim : Type 0 → Type 0
    Claim P = P ⊎ SecondPreimage tree

    pub both : {P Q : Type 0} → Claim P → Claim Q → Claim (P × Q)
    both (inl p) (inl q) = inl (p, q)
    both (inl p) (inr s) = inr s
    both (inr s) q = inr s

    -- both children of a node
    abbrev Pair : ℕ → ℕ → List ℕ → List ℕ → Type 0
    Pair k i left right = Honest k (2 * i) left × Honest k (2 * i + 1) right

    -- the parent of two digests: it fits, and if it is the tree's, so are they
    Above : (n k i : ℕ) (left right : List ℕ) → Node → Type 0
    Above n k i left right parent =
        Fits n parent.0 parent.1 × (Honest (suc k) parent.0 parent.1 → Claim (Pair k i left right))

    above :
        (k n index i : ℕ) (left right : List ℕ) (parent : Node)
        → k + suc n ≡ tree.height
        → index < 2 ^ suc n
        → index / 2 ≡ i
        → IsBytes 32 left
        → IsBytes 32 right
        → (index / 2, (hash_pair left right).bytes) ≡ parent
        → Above n k i left right parent
    unfolding Above
    above k n index i left right parent h low half hl hr p =
        let below : i < 2 ^ n = omega (arith, half-lt index n low, half) in
        subst (Above n k i left right) (ap (λ j. (j, (hash_pair left right).bytes)) (sym half) ∙ p)
          ((below, hash_pair-IsBytes left right), children tree k n i left right h below hl hr)

    first : {P Q : Type 0} → Claim (P × Q) → Claim P
    first (inl x) = inl x.0
    first (inr s) = inr s

    second : {P Q : Type 0} → Claim (P × Q) → Claim Q
    second (inl x) = inl x.1
    second (inr s) = inr s

    pub follow : {P Q : Type 0} → (P → Q) → Claim P → Claim Q
    follow f (inl x) = inl (f x)
    follow f (inr s) = inr s

    pub chain : {P Q : Type 0} → (P → Claim Q) → Claim P → Claim Q
    chain f (inl x) = f x
    chain f (inr s) = inr s

    at_index : (k i j : ℕ) (digest : List ℕ) → i ≡ j → Honest k i digest → Honest k j digest
    at_index k i j digest e h = subst (λ x. Honest k x digest) e h

    -- a node whose sibling is read
    single_step :
        (k n index : ℕ) (digest : List ℕ) (t t' : Transcript S) (parent : Node)
        → k + suc n ≡ tree.height
        → Fits (suc n) index digest
        → with_sibling src (index, digest) t ≡ ok (parent, t')
        → Fits n parent.0 parent.1
          × (Honest (suc k) parent.0 parent.1 → Claim (Honest k index digest))
    unfolding with_sibling Above
    single_step k n index digest t t' parent h (low, bytes) e =
        let (sibling, t1, e0, e1) = bind-ok (read src Piece.sibling 32) _ t (parent, t') e in
        let hs = read-IsBytes Piece.sibling 32 t t1 sibling e0 in
        let made : Bool → Node = λ b.
          (index / 2, (if b then hash_pair digest sibling else hash_pair sibling digest).bytes) in
        let p : made (index % 2 == 0) ≡ parent = ap (λ x. x.0) (ok-inj e1) in
        elim (Bool-cases (index % 2 == 0)) [
          | inl even ↦
              let up =
                above k n index (index / 2) digest sibling parent h low refl bytes hs
                  (sym (ap made even) ∙ p) in
              let same : 2 * (index / 2) ≡ index = omega (arith, (==_iff (index % 2) 0).0 even) in
              (up.0, λ honest. follow (at_index k _ _ digest same) (first (up.1 honest)))
          | inr odd ↦
              let up =
                above k n index (index / 2) sibling digest parent h low refl hs bytes
                  (sym (ap made odd) ∙ p) in
              let same : 2 * (index / 2) + 1 ≡ index = omega (arith, ==_false (index % 2) 0 odd) in
              (up.0, λ honest. follow (at_index k _ _ digest same) (second (up.1 honest)))
        ]

    -- what a level up keeps
    Lifts : ℕ → ℕ → List Node → List Node → Type 0
    Lifts k n nodes parents =
        EachNode (Fits n) parents
        × (EachNode (Honest (suc k)) parents → Claim (EachNode (Honest k) nodes))

    level-Lifts :
        (k n : ℕ) (nodes : List Node) (t t' : Transcript S) (parents : List Node)
        → k + suc n ≡ tree.height
        → EachNode (Fits (suc n)) nodes
        → climb_level src nodes t ≡ ok (parents, t')
        → Lifts k n nodes parents
    unfolding climb_level EachNode Lifts Above
    level-Lifts k n [] t t' parents h fit e =
        subst (Lifts k n []) (ap (λ x. x.0) (ok-inj e)) (tt, λ _. inl tt)
    level-Lifts k n ((index, digest) ∷ []) t t' parents h (fit, _) e =
        let (parent, t1, e0, e1) = bind-ok (with_sibling src (index, digest)) _ t (parents, t') e in
        let (fits, below) = single_step k n index digest t t1 parent h fit e0 in
        subst (Lifts k n ((index, digest) ∷ [])) (ap (λ x. x.0) (ok-inj e1))
          ((fits, tt), λ honest. follow (λ d. (d, tt)) (below honest.0))
    level-Lifts k n ((index, digest) ∷ (index', digest') ∷ nodes) t t' parents h (fit, (fit', fits))
          e =
        let pair : M S (List Node) = climb_level src nodes >>= λ rest.
        pure ((index / 2, (hash_pair digest digest').bytes) ∷ rest) in
        let single : M S (List Node) = with_sibling src (index, digest) >>= λ parent.
        climb_level src ((index', digest') ∷ nodes) >>= λ rest. pure (parent ∷ rest) in
        let take : Bool → Result (List Node × Transcript S) = λ b. (if b then pair else single) t in
        elim (Bool-cases (paired src index index')) [
          | inl two ↦
              let (rest, t1, e0, e1) =
                bind-ok (climb_level src nodes) _ t (parents, t') (sym (ap take two) ∙ e) in
              let (up, down) = level-Lifts k n nodes t t1 rest h fits e0 in
              let (left, right) = paired_children index index' two in
              let (here, below) =
                above k n index (index / 2) digest digest' _ h fit.0 refl fit.1 fit'.1 refl in
              subst (Lifts k n ((index, digest) ∷ (index', digest') ∷ nodes))
                (ap (λ x. x.0) (ok-inj e1))
                (
                  (here, up),
                  λ honest.
                      follow
                        (λ x. (
                          at_index k _ index digest left x.0.0,
                          (at_index k _ index' digest' right x.0.1, x.1),
                        ))
                        (both (below honest.0) (down honest.1)),
                )
          | inr one ↦
              let (parent, t1, e0, e1) =
                bind-ok (with_sibling src (index, digest)) _ t (parents, t')
                  (sym (ap take one) ∙ e) in
              let (rest, t2, e2, e3) =
                bind-ok (climb_level src ((index', digest') ∷ nodes)) _ t1 (parents, t') e1 in
              let (here, below) = single_step k n index digest t t1 parent h fit e0 in
              let (up, down) =
                level-Lifts k n ((index', digest') ∷ nodes) t1 t2 rest h (fit', fits) e2 in
              subst (Lifts k n ((index, digest) ∷ (index', digest') ∷ nodes))
                (ap (λ x. x.0) (ok-inj e3))
                ((here, up), λ honest. both (below honest.0) (down honest.1))
        ]

    pub climb_lifts :
        (height k : ℕ) (nodes : List Node) (t t' : Transcript S) (top : List Node)
        → k + height ≡ tree.height
        → EachNode (Fits height) nodes
        → climb src height nodes t ≡ ok (top, t')
        → EachNode (Fits 0) top
          × (EachNode (Honest tree.height) top → Claim (EachNode (Honest k) nodes))
    unfolding climb Lifts
    climb_lifts zero k nodes t t' top h fit e =
        let p : nodes ≡ top = ap (λ x. x.0) (ok-inj e) in
        let whole : tree.height ≡ k = omega arith in
        (
          subst (EachNode (Fits 0)) p fit,
          λ honest. inl (
              subst (EachNode (Honest k)) (sym p)
                (subst (λ j. EachNode (Honest j) top) whole honest)),
        )
    climb_lifts (suc height) k nodes t t' top h fit e =
        let (parents, t1, e0, e1) = bind-ok (climb_level src nodes) _ t (top, t') e in
        let (up, down) = level-Lifts k height nodes t t1 parents h fit e0 in
        let (up', down') = climb_lifts height (suc k) parents t1 t' top (omega arith) up e1 in
        (up', λ honest. chain down (down' honest))

    -- the one node at the top, of the root's digest, is the tree's
    pub top-Honest :
        (root : Digest) (top : List Node)
        → root.bytes ≡ node_digest tree tree.height 0
        → EachNode (Fits 0) top
        → is_root src root top ≡ true
        → EachNode (Honest tree.height) top
    unfolding is_root EachNode
    top-Honest root [] r fit h = tt
    top-Honest root ((index, digest) ∷ []) r (fit, _) h =
        let zeroth : 0 ≡ index = omega (arith, fit.0) in
        (at_index tree.height 0 index digest zeroth (bytes_eq-eq digest root.bytes h ∙ r), tt)
    top-Honest root ((index, digest) ∷ (index', digest') ∷ nodes) r fit h = cc
