-- ===== src/Signature/Method/Grammar.antt =====
-- MethodSignature of the Java Virtual Machine Specification, section 4.7.9.1. The exceptions that a
-- method throws are left as input. An empty class bound without interface bounds in front of a
-- parameter whose name begins with L, T or [ is not in it: the parser takes that name for the bound.
use inspequte.Base.{ℕ, ◌≡◌, false, Option, none, some, List, [], ◌∷◌, ◌++◌, ◌==◌}
use inspequte.Ir.{TypeUse, TypeParameterUse, MethodTypeUse}
use inspequte.Signature.Method.{is_colon}
use inspequte.Signature.Grammar.{latin, Name, JavaType, Reference}

-- interface bounds, each behind a colon, up to a byte that is none
pub data InterfaceBounds : List ℕ → List TypeUse → List ℕ → Type 0 where
  no_bound : {b : ℕ} {r : List ℕ} → (b == 58) ≡ false → InterfaceBounds (b ∷ r) [] (b ∷ r)
  next_bound :
      {s s' r : List ℕ} {t : TypeUse} {ts : List TypeUse}
      → Reference s t s'
      → InterfaceBounds s' ts r
      → InterfaceBounds (58 ∷ s) (t ∷ ts) r

-- a class bound, or an empty one in front of a byte that begins no reference type
pub data ClassBound : List ℕ → Option TypeUse → List ℕ → Type 0 where
  class_bound : {s r : List ℕ} {t : TypeUse} → Reference s t r → ClassBound s (some t) r
  no_class_bound :
      {b : ℕ} {r : List ℕ}
      → (b == 76) ≡ false
      → (b == 84) ≡ false
      → (b == 91) ≡ false
      → ClassBound (b ∷ r) none (b ∷ r)

-- TypeParameters after the opening angle
pub data TypeParameters : List ℕ → List TypeParameterUse → List ℕ → Type 0 where
  no_parameter : {r : List ℕ} → TypeParameters (62 ∷ r) [] r
  next_parameter :
      {b : ℕ} {s s' s'' r : List ℕ} {c : Option TypeUse} {bs : List TypeUse}
      {ps : List TypeParameterUse} (n : List ℕ)
      → (b == 62) ≡ false
      → Name is_colon (b ∷ n)
      → ClassBound s c s'
      → InterfaceBounds s' bs s''
      → TypeParameters s'' ps r
      → TypeParameters
          (b ∷ n ++ 58 ∷ s)
          (record { name = latin (b ∷ n); class_bound = c; interface_bounds = bs } ∷ ps)
          r

-- the types of the parameters after the opening parenthesis
pub data ParameterTypes : List ℕ → List TypeUse → List ℕ → Type 0 where
  no_type : {r : List ℕ} → ParameterTypes (41 ∷ r) [] r
  next_type :
      {s s' r : List ℕ} {t : TypeUse} {ts : List TypeUse}
      → JavaType s t s'
      → ParameterTypes s' ts r
      → ParameterTypes s (t ∷ ts) r

-- Result
pub data ReturnType : List ℕ → Option TypeUse → List ℕ → Type 0 where
  void_return : {r : List ℕ} → ReturnType (86 ∷ r) none r
  type_return : {s r : List ℕ} {t : TypeUse} → JavaType s t r → ReturnType s (some t) r

-- MethodSignature, without and with type parameters
pub data MethodSignature : List ℕ → MethodTypeUse → List ℕ → Type 0 where
  simple_method :
      {s s' r : List ℕ} {ts : List TypeUse} {t : Option TypeUse}
      → ParameterTypes s ts s'
      → ReturnType s' t r
      → MethodSignature
          (40 ∷ s)
          (record { type_parameters = []; parameters = ts; return_type = t })
          r
  generic_method :
      {s s' s'' r : List ℕ} {ps : List TypeParameterUse} {ts : List TypeUse} {t : Option TypeUse}
      → TypeParameters s ps (40 ∷ s')
      → ParameterTypes s' ts s''
      → ReturnType s'' t r
      → MethodSignature
          (60 ∷ s)
          (record { type_parameters = ps; parameters = ts; return_type = t })
          r
