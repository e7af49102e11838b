-- ===== src/BoostedTrees/Boosting.antt =====
-- src/ComputationContainer/GBDT/SGBM.hpp: the boosting of regression trees, and what the boosted
-- trees predict for the rows that they were made from.
mod Tests
use mathlib.Core.Path.{subst}
use mathlib.Core.Option.{some-injective}
use quick_mpc.Prelude.{
  ℕ, zero, suc, ◌+◌, ◌≤◌, ◌<◌, ◌≡◌, refl, sym, ap, ◌∙◌, inl, Option, none, some, List, [], ◌∷◌,
  ◌++◌, map, arith, length, length-append, get_or, get_or-loop, length-table, replicate, table,
  ◌>>=◌, >>=-eq-some,
}
use quick_mpc.BoostedTrees.{
  Numbers, RegressionTree, sum, grad, create_tree, Node, Children, regression_node, no_child,
  child_then,
}
use quick_mpc.BoostedTrees.{predict}
use quick_mpc.BoostedTrees.Gradient.{
  IsExact, IsBit, AreBitsAt, IsMasked, Covers, data_row_at, grad-masked, get_or-replicate,
  length-replicate,
}
use quick_mpc.BoostedTrees.Growth.{AreWide, create_tree_lem}

-- `SGBM`: the members that `boosting` sets, with the predictions that it returns.
pub record Boosted (A D : Type 0) : Type 0 where
  pub init : A
  pub trees : List (RegressionTree A D)
  pub current_y : List A

module _ {A D : Type 0} (s : Numbers A D) where
  -- `smean`.
  unfoldable pub smean : List A → A
  smean v = s.divide (sum s v) (s.of_number (length v))

  -- `targets[i] - currentY[i]` for each row.
  pub diff_values : ℕ → List A → List A → List A
  diff_values n targets current_y =
      table n 0 (λ i. s.minus (get_or targets i s.outside) (get_or current_y i s.outside))

  pub updated : A → ℕ → List A → List A → List A
  updated lr n current_y gradient =
      table n 0
        (λ i. s.plus (get_or current_y i s.outside) (s.times lr (get_or gradient i s.outside)))

  pub add_tree : A → ℕ → Boosted A D → RegressionTree A D → Boosted A D
  add_tree lr n b tree = record b {
    trees = b.trees ++ tree ∷ [];
    current_y = updated lr n b.current_y (grad s tree);
  }

  -- One iteration of `boosting`, and the loop.
  pub boosting_round :
      A → ℕ → List A → List (List (List A)) → List A → List ℕ → Boosted A D → Option (Boosted A D)
  boosting_round lr fuel T S targets R b = do
    let diff = diff_values (length T) targets b.current_y
    tree ← create_tree s fuel T S diff R
    some (add_tree lr (length T) b tree)

  pub boosting_loop :
      ℕ
      → A
      → ℕ
      → List A
      → List (List (List A))
      → List A
      → List ℕ
      → Boosted A D
      → Option (Boosted A D)
  boosting_loop zero lr fuel T S targets R b = some b
  boosting_loop (suc num_iterations) lr fuel T S targets R b = do
    next ← boosting_round lr fuel T S targets R b
    boosting_loop num_iterations lr fuel T S targets R next

  -- `boosting`, with the depth of `createTree` as fuel.
  pub boosting : ℕ → A → ℕ → List A → List (List (List A)) → List A → List ℕ → Option (Boosted A D)
  boosting num_iterations lr fuel T S targets R =
      let init = smean targets in
      boosting_loop num_iterations lr fuel T S targets R
        (record { init = init; trees = []; current_y = replicate (length T) init })

  -- `predict` over the trees.
  pub predict_trees : A → A → List (RegressionTree A D) → List (List A) → A
  predict_trees lr ret [] data_row = ret
  predict_trees lr ret (tree ∷ trees) data_row =
      predict_trees lr (s.plus ret (s.times lr (predict s tree data_row))) trees data_row

  pub predict_boosted : A → Boosted A D → List (List A) → A
  predict_boosted lr b data_row = predict_trees lr b.init b.trees data_row

  predict_trees-snoc :
      (lr ret : A) (trees : List (RegressionTree A D)) (tree : RegressionTree A D)
      (data_row : List (List A))
      → predict_trees lr ret (trees ++ tree ∷ []) data_row
        ≡ s.plus (predict_trees lr ret trees data_row) (s.times lr (predict s tree data_row))
  unfolding predict_trees
  predict_trees-snoc lr ret [] tree data_row = refl
  predict_trees-snoc lr ret (t ∷ trees) tree data_row =
      predict_trees-snoc lr (s.plus ret (s.times lr (predict s t data_row))) trees tree data_row

-- Every tree of the list covers the row.
unfoldable pub AllCovers : {A D : Type 0} → ℕ → List (RegressionTree A D) → Type 0
AllCovers i [] = Unit {0}
AllCovers i (tree ∷ trees) = Covers i tree × AllCovers i trees

AllCovers-snoc :
    {A D : Type 0} (i : ℕ) (trees : List (RegressionTree A D)) (tree : RegressionTree A D)
    → AllCovers i (trees ++ tree ∷ [])
    → AllCovers i trees × Covers i tree
unfolding AllCovers
AllCovers-snoc i [] tree (cover, more) = (tt, cover)
AllCovers-snoc i (t ∷ trees) tree (cover, more) =
    let (covers, last) = AllCovers-snoc i trees tree more in ((cover, covers), last)

module _ {A D : Type 0} (s : Numbers A D) (lr : A) (fuel : ℕ) (T : List A)
    (S : List (List (List A))) (targets : List A) (R : List ℕ) (enough : length R < fuel)
    (wide : (r : ℕ) → AreWide (length T) (get_or S r [])) where
  created :
      (b : Boosted A D)
      → (tree : RegressionTree A D) × (create_tree s fuel T S
            (diff_values s (length T) targets b.current_y)
            R
          ≡ some tree)
        × IsMasked s tree T S
  unfolding diff_values
  created b =
      create_tree_lem s fuel T S (diff_values s (length T) targets b.current_y) R enough
        (length-table (length T) 0 _) wide

  round-some :
      (b : Boosted A D)
      → (tree : RegressionTree A D) × (boosting_round s lr fuel T S targets R b
          ≡ some (add_tree s lr (length T) b tree))
        × IsMasked s tree T S
  unfolding boosting_round
  round-some b =
      let (tree, made, masked) = created b in (tree, rw (boosting_round, made) refl, masked)

  loop-some :
      (n : ℕ) (b : Boosted A D)
      → (result : Boosted A D) × (boosting_loop s n lr fuel T S targets R b ≡ some result)
        × (length result.trees ≡ length b.trees + n)
        × (result.init ≡ b.init)
  unfolding boosting_loop add_tree
  loop-some zero b = (b, refl, omega arith, refl)
  loop-some (suc n) b =
      let (tree, made, masked) = round-some b in
      let (result, e, count, same) = loop-some n (add_tree s lr (length T) b tree) in
      (
        result,
        rw (boosting_loop, made) e,
        omega (arith, count, length-append b.trees (tree ∷ [])),
        same,
      )

  module _ (one : A) (laws : IsExact s one) (i : ℕ)
      (bits : (r : ℕ) → AreBitsAt s one i (get_or S r [])) (inside : i < length T)
      (selected : get_or T i s.outside ≡ one) where
    Agrees : Boosted A D → Type 0
    Agrees b =
        AllCovers i b.trees
        → get_or b.current_y i s.outside ≡ predict_boosted s lr b (data_row_at s i S)

    round-Agrees :
        (b : Boosted A D)
        → Agrees b
        → (next : Boosted A D) × (boosting_round s lr fuel T S targets R b ≡ some next)
          × Agrees next
    unfolding Agrees add_tree updated predict_boosted IsBit
    round-Agrees b agrees =
        let (tree, made, masked) = round-some b in
        (
          add_tree s lr (length T) b tree,
          made,
          λ covers.
              let (before, here) = AllCovers-snoc i b.trees tree covers in
              get_or-loop (length T) i _ s.outside inside
              ∙ rw
                  (
                    agrees before,
                    grad-masked s one laws i S bits tree T inside (inl selected) masked here,
                    selected,
                    laws.one_times (predict s tree (data_row_at s i S)),
                  )
                  (sym (predict_trees-snoc s lr b.init b.trees tree (data_row_at s i S))),
        )

    loop-Agrees :
        (n : ℕ) (b : Boosted A D)
        → Agrees b
        → (result : Boosted A D) × (boosting_loop s n lr fuel T S targets R b ≡ some result)
          × Agrees result
    unfolding boosting_loop
    loop-Agrees zero b agrees = (b, refl, agrees)
    loop-Agrees (suc n) b agrees =
        let (next, made, then_agrees) = round-Agrees b agrees in
        let (result, e, all) = loop-Agrees n next then_agrees in
        (result, rw (boosting_loop, made) e, all)

-- Where the target values and each category have as many entries as there are rows, and the fuel
-- exceeds the number of attributes, boosting ends without an exception, with a tree for each
-- iteration and with the mean of the target values as its start.
pub boosting_lem :
    {A D : Type 0} (s : Numbers A D) (n : ℕ) (lr : A) (fuel : ℕ) (T : List A)
    (S : List (List (List A))) (targets : List A) (R : List ℕ)
    → length R < fuel
    → ((r : ℕ) → AreWide (length T) (get_or S r []))
    → (b : Boosted A D) × (boosting s n lr fuel T S targets R ≡ some b)
      × (length b.trees ≡ n)
      × (b.init ≡ smean s targets)
unfolding boosting
boosting_lem s n lr fuel T S targets R enough wide =
    let (b, e, count, same) = loop-some s lr fuel T S targets R enough wide n _ in
    (b, e, omega (arith, count), same)

-- Where each category has as many entries as there are rows, all of them at the row one or zero,
-- products with one and with zero are exact, as truncating products are, and the fuel exceeds the
-- number of attributes, the value that boosting returns for a row that is selected, and is below
-- the size of each node with children of each tree, is what the boosted trees predict for the bits
-- of that row.
pub boosting-predict :
    {A D : Type 0} (s : Numbers A D) (n : ℕ) (lr : A) (fuel : ℕ) (T : List A)
    (S : List (List (List A))) (targets : List A) (R : List ℕ) (b : Boosted A D) (one : A) (i : ℕ)
    → IsExact s one
    → ((r : ℕ) → AreBitsAt s one i (get_or S r []))
    → length R < fuel
    → ((r : ℕ) → AreWide (length T) (get_or S r []))
    → boosting s n lr fuel T S targets R ≡ some b
    → i < length T
    → get_or T i s.outside ≡ one
    → AllCovers i b.trees
    → get_or b.current_y i s.outside ≡ predict_boosted s lr b (data_row_at s i S)
unfolding boosting predict_boosted Agrees predict_trees
boosting-predict s n lr fuel T S targets R b one i laws bits enough wide e inside selected covers =
    let start : Boosted _ _ = record {
      init = smean s targets;
      trees = [];
      current_y = replicate (length T) (smean s targets);
    } in
    let (result, made, agrees) =
      loop-Agrees s lr fuel T S targets R enough wide one laws i bits inside selected n start
        (λ none_yet. get_or-replicate (length T) i (smean s targets) s.outside inside) in
    let same : result ≡ b = some-injective _ _ (sym made ∙ e) in
    subst
      (λ r.
        AllCovers i r.trees
        → get_or r.current_y i s.outside ≡ predict_boosted s lr r (data_row_at s i S))
      same agrees covers
