-- ===== src/Sid3/Tests.antt =====
-- A tree for four rows with one attribute and two classes, over natural numbers.
use quick_mpc.Prelude.{
  ℕ, ◌+◌, ◌-◌, ◌*◌, ◌/◌, ◌≡◌, refl, zero, suc, none, some, List, [], ◌∷◌, ltb, ◌==◌, arith, length,
  get_or,
}
use quick_mpc.BoostedTrees.{Numbers, vector_times, sum, sum_loop}
use quick_mpc.BoostedTrees.Growth.{AreWide}
use quick_mpc.DecisionTree.{Tree}
use quick_mpc.DecisionTree.Leaf.{Fits}
use quick_mpc.Sid3.{
  Opening, base_counts, less_count, max_count, majority_class, split_transaction, create_sid3_tree,
}
use quick_mpc.Sid3.Choice.{create_sid3_tree_lem}

-- -1 is read as zero, which is the only tiny number.
abbrev counting : Numbers ℕ ℕ
counting = record {
  default = 0;
  plus = λ a b. a + b;
  minus = λ a b. a - b;
  times = λ a b. a * b;
  divide = λ a b. a / b;
  of_number = λ n. n;
  is_zero = λ a. a == 0;
  to_size = λ a. a;
  to_double = λ a. a;
  less_double = ltb;
  minus_one = 0;
  outside = 0;
}

abbrev opening : Opening ℕ ℕ
opening = record { to_count = λ a. a; is_tiny = λ a. a == 0 }

-- The second and the third class have two rows each.
last_majority :
    majority_class counting opening
      ((1 ∷ 0 ∷ 0 ∷ []) ∷ (1 ∷ 1 ∷ 0 ∷ []) ∷ (0 ∷ 1 ∷ 1 ∷ []) ∷ (0 ∷ 0 ∷ 0 ∷ []) ∷ [])
    ≡ 2
unfolding majority_class max_count base_counts less_count sum sum_loop
last_majority = refl

abbrev all_rows : List ℕ
all_rows = 1 ∷ 1 ∷ 1 ∷ 1 ∷ []

abbrev two_values : List (List (List ℕ))
two_values = ((1 ∷ 1 ∷ 0 ∷ 0 ∷ []) ∷ (0 ∷ 0 ∷ 1 ∷ 1 ∷ []) ∷ []) ∷ []

abbrev two_classes : List (List ℕ)
two_classes = (1 ∷ 1 ∷ 0 ∷ 0 ∷ []) ∷ (0 ∷ 0 ∷ 1 ∷ 1 ∷ []) ∷ []

two_values-AreWide : (r : ℕ) → AreWide 4 (get_or two_values r [])
unfolding AreWide
two_values-AreWide zero = (refl, (refl, tt))
two_values-AreWide (suc r) = tt

-- A class without an entry for the last row.
unequal_lengths :
    create_sid3_tree counting opening two_values ((1 ∷ 1 ∷ 0 ∷ []) ∷ []) 2 all_rows (0 ∷ []) ≡ none
unfolding create_sid3_tree split_transaction vector_times
unequal_lengths = refl

create_sid3_tree_lem_example :
    (tree : Tree ℕ) × (create_sid3_tree counting opening two_values two_classes 2 all_rows (0 ∷ [])
      ≡ some tree)
    × Fits tree (λ r n. n ≡ length (get_or two_values r []))
unfolding AreWide
create_sid3_tree_lem_example =
    create_sid3_tree_lem counting opening 2 all_rows two_values two_classes (0 ∷ [])
      (refl, (refl, tt)) two_values-AreWide refl (omega arith)
