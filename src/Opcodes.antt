-- ===== src/Opcodes.antt =====
-- src/opcodes.rs: the JVM opcode constants, each a byte.
use Prim.Native.Nat.{ℕ}

abbrev pub nop : ℕ
nop = 0x00

abbrev pub aconst_null : ℕ
aconst_null = 0x01

abbrev pub iconst_m1 : ℕ
iconst_m1 = 0x02

abbrev pub iconst_0 : ℕ
iconst_0 = 0x03

abbrev pub iconst_1 : ℕ
iconst_1 = 0x04

abbrev pub iconst_2 : ℕ
iconst_2 = 0x05

abbrev pub iconst_3 : ℕ
iconst_3 = 0x06

abbrev pub iconst_4 : ℕ
iconst_4 = 0x07

abbrev pub iconst_5 : ℕ
iconst_5 = 0x08

abbrev pub lconst_0 : ℕ
lconst_0 = 0x09

abbrev pub lconst_1 : ℕ
lconst_1 = 0x0a

abbrev pub fconst_0 : ℕ
fconst_0 = 0x0b

abbrev pub fconst_1 : ℕ
fconst_1 = 0x0c

abbrev pub fconst_2 : ℕ
fconst_2 = 0x0d

abbrev pub dconst_0 : ℕ
dconst_0 = 0x0e

abbrev pub dconst_1 : ℕ
dconst_1 = 0x0f

abbrev pub bipush : ℕ
bipush = 0x10

abbrev pub sipush : ℕ
sipush = 0x11

abbrev pub iload : ℕ
iload = 0x15

abbrev pub lload : ℕ
lload = 0x16

abbrev pub fload : ℕ
fload = 0x17

abbrev pub dload : ℕ
dload = 0x18

abbrev pub iload_0 : ℕ
iload_0 = 0x1a

abbrev pub iload_1 : ℕ
iload_1 = 0x1b

abbrev pub iload_2 : ℕ
iload_2 = 0x1c

abbrev pub iload_3 : ℕ
iload_3 = 0x1d

abbrev pub lload_0 : ℕ
lload_0 = 0x1e

abbrev pub lload_1 : ℕ
lload_1 = 0x1f

abbrev pub lload_2 : ℕ
lload_2 = 0x20

abbrev pub lload_3 : ℕ
lload_3 = 0x21

abbrev pub fload_0 : ℕ
fload_0 = 0x22

abbrev pub fload_1 : ℕ
fload_1 = 0x23

abbrev pub fload_2 : ℕ
fload_2 = 0x24

abbrev pub fload_3 : ℕ
fload_3 = 0x25

abbrev pub dload_0 : ℕ
dload_0 = 0x26

abbrev pub dload_1 : ℕ
dload_1 = 0x27

abbrev pub dload_2 : ℕ
dload_2 = 0x28

abbrev pub dload_3 : ℕ
dload_3 = 0x29

abbrev pub istore : ℕ
istore = 0x36

abbrev pub istore_0 : ℕ
istore_0 = 0x3b

abbrev pub istore_1 : ℕ
istore_1 = 0x3c

abbrev pub istore_2 : ℕ
istore_2 = 0x3d

abbrev pub istore_3 : ℕ
istore_3 = 0x3e

abbrev pub tableswitch : ℕ
tableswitch = 0xaa

abbrev pub lookupswitch : ℕ
lookupswitch = 0xab

abbrev pub goto : ℕ
goto = 0xa7

abbrev pub jsr : ℕ
jsr = 0xa8

abbrev pub goto_w : ℕ
goto_w = 0xc8

abbrev pub jsr_w : ℕ
jsr_w = 0xc9

abbrev pub ireturn : ℕ
ireturn = 0xac

abbrev pub lreturn : ℕ
lreturn = 0xad

abbrev pub freturn : ℕ
freturn = 0xae

abbrev pub dreturn : ℕ
dreturn = 0xaf

abbrev pub areturn : ℕ
areturn = 0xb0

abbrev pub return : ℕ
return = 0xb1

abbrev pub arraylength : ℕ
arraylength = 0xbe

abbrev pub athrow : ℕ
athrow = 0xbf

abbrev pub monitorenter : ℕ
monitorenter = 0xc2

abbrev pub monitorexit : ℕ
monitorexit = 0xc3

abbrev pub aload : ℕ
aload = 0x19

abbrev pub aload_0 : ℕ
aload_0 = 0x2a

abbrev pub aload_1 : ℕ
aload_1 = 0x2b

abbrev pub aload_2 : ℕ
aload_2 = 0x2c

abbrev pub aload_3 : ℕ
aload_3 = 0x2d

abbrev pub astore : ℕ
astore = 0x3a

abbrev pub astore_0 : ℕ
astore_0 = 0x4b

abbrev pub astore_1 : ℕ
astore_1 = 0x4c

abbrev pub astore_2 : ℕ
astore_2 = 0x4d

abbrev pub astore_3 : ℕ
astore_3 = 0x4e

abbrev pub pop : ℕ
pop = 0x57

abbrev pub pop2 : ℕ
pop2 = 0x58

abbrev pub dup : ℕ
dup = 0x59

abbrev pub aastore : ℕ
aastore = 0x53

abbrev pub aaload : ℕ
aaload = 0x32

abbrev pub ifeq : ℕ
ifeq = 0x99

abbrev pub ifne : ℕ
ifne = 0x9a

abbrev pub iflt : ℕ
iflt = 0x9b

abbrev pub ifge : ℕ
ifge = 0x9c

abbrev pub ifgt : ℕ
ifgt = 0x9d

abbrev pub ifle : ℕ
ifle = 0x9e

abbrev pub if_icmpeq : ℕ
if_icmpeq = 0x9f

abbrev pub if_icmpne : ℕ
if_icmpne = 0xa0

abbrev pub if_icmplt : ℕ
if_icmplt = 0xa1

abbrev pub if_icmpge : ℕ
if_icmpge = 0xa2

abbrev pub if_icmpgt : ℕ
if_icmpgt = 0xa3

abbrev pub if_icmple : ℕ
if_icmple = 0xa4

abbrev pub if_acmpeq : ℕ
if_acmpeq = 0xa5

abbrev pub if_acmpne : ℕ
if_acmpne = 0xa6

abbrev pub new : ℕ
new = 0xbb

abbrev pub newarray : ℕ
newarray = 0xbc

abbrev pub anewarray : ℕ
anewarray = 0xbd

abbrev pub multianewarray : ℕ
multianewarray = 0xc5

abbrev pub ifnull : ℕ
ifnull = 0xc6

abbrev pub ifnonnull : ℕ
ifnonnull = 0xc7

abbrev pub invokevirtual : ℕ
invokevirtual = 0xb6

abbrev pub invokespecial : ℕ
invokespecial = 0xb7

abbrev pub invokestatic : ℕ
invokestatic = 0xb8

abbrev pub invokeinterface : ℕ
invokeinterface = 0xb9

abbrev pub invokedynamic : ℕ
invokedynamic = 0xba

abbrev pub getstatic : ℕ
getstatic = 0xb2

abbrev pub putstatic : ℕ
putstatic = 0xb3

abbrev pub getfield : ℕ
getfield = 0xb4

abbrev pub putfield : ℕ
putfield = 0xb5

abbrev pub iadd : ℕ
iadd = 0x60

abbrev pub ladd : ℕ
ladd = 0x61

abbrev pub fadd : ℕ
fadd = 0x62

abbrev pub dadd : ℕ
dadd = 0x63

abbrev pub isub : ℕ
isub = 0x64

abbrev pub lsub : ℕ
lsub = 0x65

abbrev pub fsub : ℕ
fsub = 0x66

abbrev pub dsub : ℕ
dsub = 0x67

abbrev pub imul : ℕ
imul = 0x68

abbrev pub lmul : ℕ
lmul = 0x69

abbrev pub fmul : ℕ
fmul = 0x6a

abbrev pub dmul : ℕ
dmul = 0x6b

abbrev pub idiv : ℕ
idiv = 0x6c

abbrev pub ldiv : ℕ
ldiv = 0x6d

abbrev pub fdiv : ℕ
fdiv = 0x6e

abbrev pub ddiv : ℕ
ddiv = 0x6f

abbrev pub irem : ℕ
irem = 0x70

abbrev pub lrem : ℕ
lrem = 0x71

abbrev pub frem : ℕ
frem = 0x72

abbrev pub drem : ℕ
drem = 0x73

abbrev pub ishl : ℕ
ishl = 0x78

abbrev pub lshl : ℕ
lshl = 0x79

abbrev pub ishr : ℕ
ishr = 0x7a

abbrev pub lshr : ℕ
lshr = 0x7b

abbrev pub iushr : ℕ
iushr = 0x7c

abbrev pub lushr : ℕ
lushr = 0x7d

abbrev pub iand : ℕ
iand = 0x7e

abbrev pub land : ℕ
land = 0x7f

abbrev pub ior : ℕ
ior = 0x80

abbrev pub lor : ℕ
lor = 0x81

abbrev pub ixor : ℕ
ixor = 0x82

abbrev pub lxor : ℕ
lxor = 0x83

abbrev pub ldc : ℕ
ldc = 0x12

abbrev pub ldc_w : ℕ
ldc_w = 0x13

abbrev pub ldc2_w : ℕ
ldc2_w = 0x14
