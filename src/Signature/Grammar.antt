-- ===== src/Signature/Grammar.antt =====
-- The grammar of signatures in the Java Virtual Machine Specification, section 4.7.9.1, as relations
-- between the input, the tree, and the input that is left. Identifiers are in ASCII.
use inspequte.Base.{ℕ, ◌<◌, ◌≡◌, Bool, true, false, List, [], ◌∷◌, ◌++◌, All}
use inspequte.Base.Text.{no_text, in_front}
use inspequte.Ir.{
  unknown, TypeUse, type_use, base, type_var, wildcard, ClassTypeUse, class_type_use, MaybeTypeUse,
  absent, present, TypeUses, nil, cons,
}
use Prim.Native.String.{String}
use inspequte.Signature.{array_of, class_of, is_base, ends_class_name, ends_variable}

-- the text of bytes, each as one character
abbrev pub latin : List ℕ → String
latin [] = no_text
latin (b ∷ s) = in_front b (latin s)

-- the bytes of an identifier in ASCII, which end at a delimiter
abbrev pub Name : (ℕ → Bool) → List ℕ → Type 0
Name stop n = All (λ b. stop b ≡ false) n × All (λ b. b < 128) n

mutual
  -- JavaTypeSignature
  pub data JavaType : List ℕ → TypeUse → List ℕ → Type 0 where
    base_type :
        {b : ℕ} {r : List ℕ} → is_base b ≡ true → JavaType (b ∷ r) (type_use unknown (base b)) r
    reference_type : {s r : List ℕ} {t : TypeUse} → Reference s t r → JavaType s t r

  -- ReferenceTypeSignature
  pub data Reference : List ℕ → TypeUse → List ℕ → Type 0 where
    class_reference :
        {s r : List ℕ} {c : ClassTypeUse} → ClassType s c r → Reference s (class_of c) r
    variable :
        {r : List ℕ} (n : List ℕ)
        → Name ends_variable n
        → Reference (84 ∷ n ++ 59 ∷ r) (type_use unknown (type_var (latin n))) r
    array_reference :
        {s r : List ℕ} {t : TypeUse} → JavaType s t r → Reference (91 ∷ s) (array_of t) r

  -- ClassTypeSignature, with the package in front of the name
  pub data ClassType : List ℕ → ClassTypeUse → List ℕ → Type 0 where
    class_type :
        {s r : List ℕ} {args : TypeUses} {inner : MaybeTypeUse} (n : List ℕ)
        → Name ends_class_name n
        → ClassRest s args inner r
        → ClassType (76 ∷ n ++ s) (class_type_use (latin n) args inner) r

  -- what follows the name of a class: its arguments, and its suffix
  pub data ClassRest : List ℕ → TypeUses → MaybeTypeUse → List ℕ → Type 0 where
    plain : {s r : List ℕ} {inner : MaybeTypeUse} → Suffix s inner r → ClassRest s nil inner r
    generic :
        {s s' r : List ℕ} {args : TypeUses} {inner : MaybeTypeUse}
        → Arguments s args s'
        → Suffix s' inner r
        → ClassRest (60 ∷ s) args inner r

  -- ClassTypeSignatureSuffix, any number of times, and the semicolon
  pub data Suffix : List ℕ → MaybeTypeUse → List ℕ → Type 0 where
    close : {r : List ℕ} → Suffix (59 ∷ r) absent r
    inner_class :
        {s r : List ℕ} {args : TypeUses} {inner : MaybeTypeUse} (n : List ℕ)
        → Name ends_class_name n
        → ClassRest s args inner r
        → Suffix (46 ∷ n ++ s) (present (class_of (class_type_use (latin n) args inner))) r

  -- TypeArguments after the opening angle
  pub data Arguments : List ℕ → TypeUses → List ℕ → Type 0 where
    last : {s r : List ℕ} {a : TypeUse} → Argument s a (62 ∷ r) → Arguments s (cons a nil) r
    next :
        {s s' r : List ℕ} {a : TypeUse} {args : TypeUses}
        → Argument s a s'
        → Arguments s' args r
        → Arguments s (cons a args) r

  -- TypeArgument
  pub data Argument : List ℕ → TypeUse → List ℕ → Type 0 where
    any : {r : List ℕ} → Argument (42 ∷ r) (type_use unknown (wildcard absent)) r
    extends :
        {s r : List ℕ} {t : TypeUse}
        → Reference s t r
        → Argument (43 ∷ s) (type_use unknown (wildcard (present t))) r
    super :
        {s r : List ℕ} {t : TypeUse}
        → Reference s t r
        → Argument (45 ∷ s) (type_use unknown (wildcard (present t))) r
    exact : {s r : List ℕ} {t : TypeUse} → Reference s t r → Argument s t r
