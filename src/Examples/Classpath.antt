-- ===== src/Examples/Classpath.antt =====
-- Two artifacts with a class each, one of them twice.
use inspequte.Base.{◌≡◌, true, false, ◌⊎◌, Option, none, some, List, [], ◌∷◌}
use inspequte.Base.Int.{ℤ, pos}
use inspequte.Base.Result.{ok, err, duplicate_classes}
use inspequte.Ir.{Class}
use inspequte.Classpath.{get_text, resolve_classpath}
use inspequte.Classpath.Names.{indices_of}
use inspequte.Classpath.Smallest.{IsSmallest}
use inspequte.Classpath.Resolved.{HasDuplicate, resolve_classpath-artifacts}
use Prim.Native.String.{String}
use mathlib.Core.List.{Memᴰ}

abbrev class_of : String → ℤ → Class
class_of name artifact = record {
  name = name;
  source_file = none;
  super_name = none;
  interfaces = [];
  type_parameters = [];
  referenced_classes = [];
  fields = [];
  methods = [];
  annotation_defaults = [];
  artifact_index = artifact;
  is_record = false;
}

abbrev classes : List Class
classes =
    class_of "app/Main" (pos 0) ∷ class_of "lib/Util" (pos 1) ∷ class_of "app/Main" (pos 1) ∷ []

abbrev artifacts : List (Option (Option String))
artifacts = some (some "z.jar") ∷ some (some "a.jar") ∷ []

resolve_classpath-artifacts_example :
    ((idx : List (String × ℤ)) × (resolve_classpath classes artifacts true ≡ ok idx)
      × ((c : Class)
          → Memᴰ c classes
          → (i : ℤ) × (get_text c.name idx ≡ some i)
            × IsSmallest artifacts i (indices_of c.name classes)))
    × (((resolve_classpath classes artifacts false ≡ err duplicate_classes) × HasDuplicate classes)
        ⊎ ((idx : List (String × ℤ)) × (resolve_classpath classes artifacts false ≡ ok idx)
            × (¬ HasDuplicate classes)
            × ((c : Class) → Memᴰ c classes → get_text c.name idx ≡ some c.artifact_index)))
resolve_classpath-artifacts_example = resolve_classpath-artifacts classes artifacts
