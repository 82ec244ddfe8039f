-- ===== src/Dataflow/Decode.antt =====
-- src/dataflow/opcode_semantics.rs: the table of default opcode effects.
use inspequte.Base.{
  ℕ, Bool, false, ◌&&◌, ◌||◌, Option, none, some, List, [], ◌∷◌, leb, ◌==◌, if◌then◌else◌,
}
use inspequte.Opcodes

pub data LocalSlot : Type 0 where
  operand_u8 : LocalSlot
  fixed : ℕ → LocalSlot

pub data PushKind : Type 0 where
  unknown scalar : PushKind

pub data Effect : Type 0 where
  noop push_unknown push_scalar : Effect
  load_local store_local : LocalSlot → Effect
  pop : ℕ → Effect
  dup dup2 swap : Effect
  pop_and_push : ℕ → PushKind → Effect
  multi_a_new_array : Effect

abbrev pub one_of : ℕ → List ℕ → Bool
one_of opcode [] = false
one_of opcode (o ∷ os) = opcode == o || one_of opcode os

-- `lo..=hi`
abbrev pub between : ℕ → ℕ → ℕ → Bool
between lo hi opcode = leb lo opcode && leb opcode hi

-- the arms of the `match`, in the order of the source
unfoldable pub decode : ℕ → Option Effect
decode opcode =
    if opcode == Opcodes.nop
    then some noop
    else if opcode == Opcodes.aconst_null
    then some push_unknown
    else if one_of opcode (
        Opcodes.iconst_m1 ∷ Opcodes.iconst_0 ∷ Opcodes.iconst_1 ∷ Opcodes.iconst_2
        ∷ Opcodes.iconst_3 ∷ Opcodes.iconst_4 ∷ Opcodes.iconst_5 ∷ Opcodes.lconst_0
        ∷ Opcodes.lconst_1 ∷ Opcodes.fconst_0 ∷ Opcodes.fconst_1 ∷ Opcodes.fconst_2
        ∷ Opcodes.dconst_0 ∷ Opcodes.dconst_1 ∷ Opcodes.bipush ∷ Opcodes.sipush ∷ Opcodes.new
        ∷ Opcodes.ldc ∷ Opcodes.ldc_w ∷ Opcodes.ldc2_w ∷ [])
    then some push_scalar
    else if one_of opcode (
          Opcodes.iload ∷ Opcodes.iload_0 ∷ Opcodes.iload_1 ∷ Opcodes.iload_2 ∷ Opcodes.iload_3
          ∷ [])
        || between 0x16 0x18 opcode
        || between 0x1e 0x29 opcode
    then some push_scalar
    else if opcode == Opcodes.aload
    then some (Effect.load_local operand_u8)
    else if opcode == Opcodes.aload_0
    then some (Effect.load_local (fixed 0))
    else if opcode == Opcodes.aload_1
    then some (Effect.load_local (fixed 1))
    else if opcode == Opcodes.aload_2
    then some (Effect.load_local (fixed 2))
    else if opcode == Opcodes.aload_3
    then some (Effect.load_local (fixed 3))
    else if one_of opcode (0x36 ∷ 0x38 ∷ []) || between 0x3b 0x3e opcode || between 0x43 0x46 opcode
    then some (Effect.pop 1)
    else if one_of opcode (0x37 ∷ 0x39 ∷ []) || between 0x3f 0x42 opcode || between 0x47 0x4a opcode
    then some (Effect.pop 2)
    else if opcode == Opcodes.astore
    then some (Effect.store_local operand_u8)
    else if opcode == Opcodes.astore_0
    then some (Effect.store_local (fixed 0))
    else if opcode == Opcodes.astore_1
    then some (Effect.store_local (fixed 1))
    else if opcode == Opcodes.astore_2
    then some (Effect.store_local (fixed 2))
    else if opcode == Opcodes.astore_3
    then some (Effect.store_local (fixed 3))
    else if between 0x2e 0x31 opcode || between 0x33 0x35 opcode
    then some (pop_and_push 2 PushKind.scalar)
    else if one_of opcode (0x4f ∷ 0x51 ∷ 0x52 ∷ []) || between 0x54 0x56 opcode
    then some (Effect.pop 3)
    else if opcode == 0x50
    then some (Effect.pop 4)
    else if opcode == Opcodes.aastore
    then some (Effect.pop 3)
    else if opcode == Opcodes.aaload
    then some (pop_and_push 2 PushKind.unknown)
    else if opcode == Opcodes.pop
    then some (Effect.pop 1)
    else if opcode == Opcodes.pop2
    then some (Effect.pop 2)
    else if opcode == Opcodes.dup
    then some dup
    else if one_of opcode (0x5a ∷ 0x5b ∷ [])
    then some dup
    else if between 0x5c 0x5e opcode
    then some dup2
    else if opcode == 0x5f
    then some swap
    else if between 0x60 0x73 opcode || between 0x78 0x83 opcode || between 0x94 0x98 opcode
    then some (pop_and_push 2 PushKind.scalar)
    else if between 0x74 0x77 opcode || between 0x85 0x93 opcode
    then some (pop_and_push 1 PushKind.scalar)
    else if opcode == 0x84
    then some noop
    else if one_of opcode (
        Opcodes.ifeq ∷ Opcodes.ifne ∷ Opcodes.iflt ∷ Opcodes.ifge ∷ Opcodes.ifgt ∷ Opcodes.ifle
        ∷ Opcodes.ifnull ∷ Opcodes.ifnonnull ∷ Opcodes.tableswitch ∷ Opcodes.lookupswitch ∷ [])
    then some (Effect.pop 1)
    else if one_of opcode (
        Opcodes.if_icmpeq ∷ Opcodes.if_icmpne ∷ Opcodes.if_icmplt ∷ Opcodes.if_icmpge
        ∷ Opcodes.if_icmpgt ∷ Opcodes.if_icmple ∷ Opcodes.if_acmpeq ∷ Opcodes.if_acmpne ∷ [])
    then some (Effect.pop 2)
    else if one_of opcode (Opcodes.goto ∷ Opcodes.goto_w ∷ [])
    then some noop
    else if one_of opcode (Opcodes.jsr ∷ Opcodes.jsr_w ∷ [])
    then some push_scalar
    else if opcode == 0xb2
    then some push_scalar
    else if opcode == 0xb3
    then some (Effect.pop 1)
    else if opcode == 0xb4
    then some (pop_and_push 1 PushKind.scalar)
    else if opcode == 0xb5
    then some (Effect.pop 2)
    else if one_of opcode (Opcodes.newarray ∷ Opcodes.anewarray ∷ [])
    then some (pop_and_push 1 PushKind.unknown)
    else if one_of opcode (Opcodes.arraylength ∷ 0xc1 ∷ [])
    then some (pop_and_push 1 PushKind.scalar)
    else if opcode == 0xc0
    then some (pop_and_push 1 PushKind.unknown)
    else if one_of opcode (0xc2 ∷ 0xc3 ∷ [])
    then some (Effect.pop 1)
    else if opcode == Opcodes.multianewarray
    then some multi_a_new_array
    else none
