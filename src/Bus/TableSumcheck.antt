-- ===== src/Bus/TableSumcheck.antt =====
-- `table_sumcheck` and `bus_and_tables`: one sumcheck over the six tables, at the bus point.
use hardware_wallet_benchmar.Prelude.{
  ℕ, zero, suc, List, [], ◌∷◌, ◌++◌, true, false, if◌then◌else◌, ◌+◌, max, take, leb, ltb, ◌==◌,
  ◌&&◌, length, drop, reverse, replicate,
}
use hardware_wallet_benchmar.Error.{require, table_sumcheck_terminal, announced_table_sizes}
use hardware_wallet_benchmar.Transcript.Monad.{M, ◌>>=◌, ◌>>◌, pure, lift}
use hardware_wallet_benchmar.Transcript.Source.{Source}
use hardware_wallet_benchmar.Field.E.{E, ◌⊠◌, one_e, ◌⊞◌, zero_e, ◌≟◌}
use hardware_wallet_benchmar.Bytecode.{Program}
use hardware_wallet_benchmar.Bus.Layout.{Layout}
use hardware_wallet_benchmar.Bus.Blocks.{
  SideLayout, Block, selector, block_form, push_pull_blocks, count_blocks, side_layout,
}
use hardware_wallet_benchmar.Bus.Balance.{Bus, verify_bus_balance}
use hardware_wallet_benchmar.Transcript.Ops.{next_scalars, sample, sumcheck}
use hardware_wallet_benchmar.Bus.Gkr.{max_point}
use hardware_wallet_benchmar.Tables.Columns.{
  nat_at, n_constraints, op_jump, table_widths, jump_constraints, global_column_bases, n_tables,
  num_global_columns,
}
use hardware_wallet_benchmar.Transcript.Multilinear.{at, dot}

pub record BusTables : Type 0 where
  pub bus_point : List E
  pub memory : List E
  pub memory_final : E
  pub bytecode_final : E
  pub table_point : List E
  pub values : List E

unfoldable pub max_height : List ℕ → ℕ
max_height [] = 0
max_height (height ∷ heights) = max height (max_height heights)

-- one coordinate's factor into each table's weight
unfoldable pub weight_round : ℕ → E → E → List ℕ → List E → List E
weight_round variable equality challenge (height ∷ heights) (weight ∷ weights) =
    (weight ⊠ (if ltb variable height then equality else challenge))
    ∷ weight_round variable equality challenge heights weights
weight_round variable equality challenge [] weights = weights
weight_round variable equality challenge (height ∷ heights) [] = []

-- the coordinates from `variable` on
unfoldable pub table_weights : ℕ → List E → List E → List ℕ → List E → List E
table_weights variable (challenge ∷ point) zeta heights weights =
    table_weights (variable + 1) point zeta heights
      (weight_round variable (one_e ⊞ at zeta variable ⊞ challenge) challenge heights weights)
table_weights variable [] zeta heights weights = weights

-- the forms of table `t` on the push and the pull side, over the blocks from `b` on
unfoldable pub form_loop : ℕ → SideLayout → Bus → List E → ℕ → List Block → E × E → E × E
form_loop t layout bus v b [] forms = forms
form_loop t layout bus v b ((owner, which) ∷ blocks) (push, pull) =
    let s = selector layout b bus.point in
    let added : E × E = (
      push ⊞ s ⊠ block_form 0 t which v bus.beta bus.weights,
      pull ⊞ s ⊠ block_form 1 t which v bus.beta bus.weights,
    ) in
    form_loop t layout bus v (b + 1) blocks (if owner == t then added else (push, pull))

-- and on the count side
unfoldable pub count_loop : ℕ → SideLayout → List E → List E → ℕ → List Block → E → E
count_loop t layout zeta v b [] form = form
count_loop t layout zeta v b ((owner, column) ∷ blocks) form =
    count_loop t layout zeta v (b + 1) blocks
      (if owner == t then form ⊞ selector layout b zeta ⊠ at v column else form)

unfoldable pub table_summand : ℕ → SideLayout → SideLayout → Bus → List E → List E → E
unfolding form_loop count_loop
table_summand t flush_layout count_layout bus xi_powers v =
    let constraint =
      if t == op_jump then dot (take n_constraints xi_powers) (jump_constraints v) else zero_e in
    let (push, pull) = form_loop t flush_layout bus v 0 push_pull_blocks (zero_e, zero_e) in
    let counts = count_loop t count_layout bus.point v 0 count_blocks zero_e in
    constraint ⊞ dot (drop n_constraints xi_powers) (push ∷ pull ∷ counts ∷ [])

-- the columns of table `t`
unfoldable pub columns_of : List E → ℕ → List E
columns_of values t = take (nat_at table_widths t) (drop (nat_at global_column_bases t) values)

-- the terminal claim, `n` tables from `t` on
unfoldable pub terminal_loop :
    ℕ → ℕ → SideLayout → SideLayout → Bus → List E → List E → List E → E → E
terminal_loop t zero flush_layout count_layout bus xi_powers weights values terminal = terminal
terminal_loop t (suc n) flush_layout count_layout bus xi_powers weights values terminal =
    terminal_loop (t + 1) n flush_layout count_layout bus xi_powers weights values (
      terminal
      ⊞ at weights t
        ⊠ table_summand t flush_layout count_layout bus xi_powers (columns_of values t))

-- `1, xi, xi^2, ...`, `n` powers from `power` on
unfoldable pub powers_from : E → ℕ → E → List E
powers_from power zero xi = []
powers_from power (suc n) xi = power ∷ powers_from (power ⊠ xi) n xi

module _ {S : Type 0} (src : Source S) where
  -- the columns' evaluations, table by table
  unfoldable pub next_tables : List ℕ → M S (List E)
  next_tables [] = pure []
  next_tables (width ∷ widths) = do
    values ← next_scalars src width
    rest ← next_tables widths
    pure (values ++ rest)

  -- the table point, and each column's evaluation
  unfoldable pub table_sumcheck : Layout → Bus → List E → E → M S (List E × List E)
  table_sumcheck layout bus xi_powers target = do
    let n_rounds = max_height layout.heights
    lift (require (leb n_rounds max_point && leb n_rounds (length bus.point)) announced_table_sizes)
    (challenges, claim) ← sumcheck src target 4 n_rounds
    let point = reverse challenges
    let weights = table_weights 0 point bus.point layout.heights (replicate n_tables one_e)
    tables ← next_tables table_widths
    let values = replicate num_global_columns zero_e ++ tables
    flush_layout ← lift (side_layout layout false)
    count_layout ← lift (side_layout layout true)
    let terminal =
        terminal_loop 0 n_tables flush_layout count_layout bus xi_powers weights values zero_e
    lift (require (terminal ≟ claim) table_sumcheck_terminal)
    pure (point, values)

  unfoldable pub bus_and_tables : Program → Layout → M S BusTables
  bus_and_tables program layout = do
    bus ← verify_bus_balance src program layout
    xi ← sample
    let xi_powers = powers_from one_e (n_constraints + 3) xi
    let target = dot (drop n_constraints xi_powers) bus.totals
    (table_point, values) ← table_sumcheck layout bus xi_powers target
    pure (record {
      bus_point = bus.point;
      memory = bus.memory;
      memory_final = bus.memory_final;
      bytecode_final = bus.bytecode_final;
      table_point = table_point;
      values = values;
    })
