-- ===== src/Thread/JobPriorities.antt =====
-- ThreadPool/JobPriorities.h and .cpp.
use cpp_toolkit.Prelude.{
  ℕ, ◌≡◌, arith, List, [], ◌∷◌, ◌++◌, map, codes, Eq, rank_eq, ◌==◌, Bool, false, ◌||◌,
}

pub data JobPriorities : Type 0 where
  top high normal low long_term : JobPriorities

abbrev pub rank : JobPriorities → ℕ
rank top = 0
rank high = 1
rank normal = 2
rank low = 3
rank long_term = 4

pub rank_inj : (a b : JobPriorities) → rank a ≡ rank b → a ≡ b
rank_inj a b h = ground arith

instance abbrev pub priority_eq : Eq JobPriorities
priority_eq = rank_eq rank rank_inj

unfoldable pub priority_string : JobPriorities → List ℕ
priority_string top = codes "Top"
priority_string high = codes "High"
priority_string normal = codes "Normal"
priority_string low = codes "Low"
priority_string long_term = codes "LongTerm"

-- fmt::join with a separator.
unfoldable pub join : List ℕ → List (List ℕ) → List ℕ
join separator [] = []
join separator (x ∷ []) = x
join separator (x ∷ y ∷ xs) = x ++ (separator ++ join separator (y ∷ xs))

unfoldable pub priority_strings : List JobPriorities → List ℕ
unfolding priority_string join
priority_strings priorities =
    codes "[ " ++ (join (codes ", ") (map priority_string priorities) ++ codes " ]")

-- std::find over a list of priorities.
unfoldable pub contains : JobPriorities → List JobPriorities → Bool
contains p [] = false
contains p (q ∷ qs) = q == p || contains p qs
