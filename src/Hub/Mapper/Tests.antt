-- ===== src/Hub/Mapper/Tests.antt =====
-- A run of pkg/hub/hubmapper.go at a concrete input.
use perceptor.Prelude.{pos, List, [], ◌∷◌}
use perceptor.Hub.Mapper.{ComponentVersionStatusCount}

abbrev answer : List ComponentVersionStatusCount
answer =
    record { name = "IN_VIOLATION"; value = pos 2 }
    ∷ record { name = "NOT_IN_VIOLATION"; value = pos 5 }
    ∷ []
