-- ===== src/Hub/Mapper/Counts.antt =====
-- What the copied counts say: the last entry of a name counts.
use perceptor.Prelude.{
  ℤ, pos, ◌≡◌, refl, ap, ◌∙◌, List, [], ◌∷◌, Option, none, some, String, if◌then◌else◌, ◌==◌,
  string_eq,
}
use perceptor.Prelude.Maps
use perceptor.Hub.DataTypes.{violation_count}
use perceptor.Hub.Mapper.{
  ComponentVersionStatusCount, copy_counts, status_entries, new_policy_status,
}

-- The value of the last entry of a name, or else `before`.
abbrev pub last_value : Option ℤ → String → List ComponentVersionStatusCount → Option ℤ
last_value before name [] = before
last_value before name (c ∷ cs) =
    last_value (if c.name == name then some c.value else before) name cs

lookup-copy_counts :
    (name : String) (cs : List ComponentVersionStatusCount) (counts : List (String × ℤ))
    → Maps.lookup name (copy_counts (status_entries cs) counts)
      ≡ last_value (Maps.lookup name counts) name cs
unfolding copy_counts status_entries
lookup-copy_counts name [] counts = refl
lookup-copy_counts name (c ∷ cs) counts =
    lookup-copy_counts name cs (Maps.insert c.name c.value counts)
    ∙ ap (λ b. last_value b name cs) (Maps.lookup-insert c.name name c.value counts)

abbrev pub count_or_zero : Option ℤ → ℤ
count_or_zero none = pos 0
count_or_zero (some n) = n

-- The violations of the policy status made from a server's answer are those that the last entry
-- IN_VIOLATION of the answer counts, and 0 without one.
pub violation_count-new_policy_status :
    (overall_status updated_at : String) (counts : List ComponentVersionStatusCount)
    → violation_count (new_policy_status overall_status updated_at counts)
      ≡ count_or_zero (last_value none "IN_VIOLATION" counts)
unfolding violation_count new_policy_status Maps.lookup
violation_count-new_policy_status overall_status updated_at counts =
    ap count_or_zero (lookup-copy_counts "IN_VIOLATION" counts [])
