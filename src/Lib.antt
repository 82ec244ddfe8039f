-- ===== src/Lib.antt =====
-- A verification library for inspequte, a static analyzer of JVM class files. It is about the part
-- that turns the bytes of a method into instructions and a control flow graph, about the dataflow
-- framework that the rules run on and one rule on it, about the parser of generic signatures and the
-- nullness of types, and about five smaller parts, the minimal class file reader, the summaries of
-- method descriptors, the partition of the classes into those to analyze and those to look up, the
-- baseline filter, and the class path.
--
-- How the parts work together. For each method, `parse_bytecode` (src/scan.rs) cuts the code array
-- into instructions and collects the calls and the string literals; `build_cfg` (src/cfg.rs) groups
-- the instructions into basic blocks and joins these by edges; both become part of the `Method` of
-- src/ir.rs. A rule that needs dataflow gives `analyze_method` (src/dataflow/worklist.rs) its states
-- and callbacks; the engine walks the blocks. In its callbacks the rule keeps a `StackMachine`
-- (src/dataflow/stack_machine.rs) and lets `apply_semantics` (src/dataflow/opcode_semantics.rs) move
-- it over an instruction, with hooks for the opcodes that the rule treats itself. The rule about locks
-- (src/rules/lock_not_released_on_exception_path/mod.rs) needs no machine: its states are positions with
-- a flag. The types of methods, fields and variables come from signatures or descriptors; annotations
-- and the default of the class then set their nullness.
--
-- The files.
--   Base             Boolean tests and lists over the native numbers (Tests, Lists), two's complement
--                    (Int), `BTreeMap` and `BTreeSet` (BTree), `anyhow::Result` with panics (Result),
--                    members of lists (Members), texts (Text), `sort_by_key` (Sorting), the
--                    answers of comparisons (Orders)
--   Opcodes          the constants of src/opcodes.rs
--   Ir               the types of src/ir.rs, `line_for_offset`
--   Bytecode         `read_u16`, `read_u32`, `read_i32`, `padding`, `opcode_length` of src/scan.rs;
--                    Reading and Lengths are about these
--   Bytecode/Parse   `parse_bytecode` of src/scan.rs; Total and Tiles are about it
--   ClassFile        the minimal class file reader of src/scan.rs: the cursor functions, the interfaces
--                    and what it skips, with its constant pool (Pool) and `parse_class_bytes_minimal`
--                    (Minimal); Cursor, PoolTotal and MinimalTotal are about them
--   Cfg              src/cfg.rs; Targets and Overflow say when it can panic, Leaders, Blocks and Edges
--                    hold the lemmas on the stages of `build_cfg`, Correct puts them together
--   Descriptor       src/descriptor.rs; Slots is about it
--   Methods          `parse_methods` of src/scan.rs from the code attribute on, with the line numbers and
--                    the exception handlers; Built and Lines are about it
--   Signature        `TypeUseSignatureParser` of src/scan.rs; Signature/Method has its type parameters
--                    and `parse_method_type_use_signature`. Grammar states the grammar of the JVM
--                    specification, Complete that it is parsed, Total that the parser ends
--   TypeUses         the nullness of types in src/scan.rs: annotations at type paths, the default, and
--                    the types of descriptors; Paths and Descriptors are about it
--   Engine           `partition_classes` and `is_analysis_target_artifact` of src/engine.rs; Partition
--                    is about them
--   Dataflow/StackMachine     src/dataflow/stack_machine.rs: one function for each method, which
--                    returns the new machine; Stack, Locals, Canonical, Renaming and Cap are about
--                    the methods, Known and Tracked hold their lemmas, Keeps and Invariant are about
--                    the budgets
--   Dataflow/Coverage         `SemanticsCoverage` of src/dataflow/opcode_semantics.rs
--   Dataflow/Decode           `decode` of the same file, the table of effects
--   Dataflow/OpcodeSemantics  `apply_effect` and `apply_semantics` of the same file; Effects and
--                    Counting are about these
--   Dataflow/Worklist         src/dataflow/worklist.rs: `analyze_method`; Reached, Runs and
--                    Terminates are about its loop, Graph and Blocks about `MethodGraph`
--   Rules/LockRelease         src/rules/lock_not_released_on_exception_path/mod.rs; Paths says what the
--                    rule looks for, Visits, Space, Correct and Found that the analysis finds it
--   Baseline         src/baseline.rs but for its file; Order is about its derived orders, Search about its
--                    binary search, Sorted about the sorted lists it needs, Filter and Load about
--                    the filter
--   Classpath        src/classpath.rs; Names, Smallest and Resolved are about it
--   Examples         the theorems on small inputs
--
-- How the code is read. A method that changes `self` returns the new value. An error is `err`, and a
-- panic (an index out of range, `Vec::remove` on an empty vector) is the outcome `panic` of
-- `Result`. A cast to `u16`, `u32` or `i32` wraps. The `i32` sum of a branch target and the `u16`
-- index into the constant pool panic when they overflow, as in a build with overflow checks; the
-- `u32` offset after an instruction wraps, which it does not reach where the instructions tile a code
-- below 2^32 bytes, as those of `parse_bytecode` do. A `usize` and the counters of the coverage are unbounded. A byte is a number; no function needs it to be below 256 but where a
-- theorem says so. `BTreeMap` and `BTreeSet` are lists in ascending key order.
--
-- Fuel. `parse_loop` runs one round for every byte of the code and one more: each round moves on by
-- at least one byte. `run`, the loop of `analyze_method`, has its fuel as an argument, since the
-- source has no bound of its own: the loop ends when the analysis has finitely many states, and
-- Dataflow/Worklist/Terminates gives the bound. `chase`, the walk from an artifact
-- to its parents, ends when the parent map has no cycle, within its depth. The analysis of the lock rule
-- has finitely many states, and `enough` of Rules/LockRelease/Space counts the rounds for them. The
-- signature parser spends at most four units of fuel on a byte (`rounds`), and the constant pool reader
-- one round on an index.
--
-- Parameters. The constant pool is a value of the crate jclassfile: the lookups in it are the
-- record `Resolvers`. An analysis is the record `Semantics`, the hooks of a rule are
-- `SemanticsHooks`, and its abstract values are a type with `ValueDomain`. The parsed descriptors
-- of the crate jdescriptor are the record `Descriptors`. The records of the crate jclassfile for
-- lines, handlers and type paths are records of the values that their accessors return, as are the
-- results of the crate serde_sarif for what the baseline reads of them; and the looking up of
-- attributes, access flags and local variable tables is input of `MethodInfo`.
-- `String::from_utf8_lossy` is a parameter.
--
-- Not modelled: the scanning of archives and the traversal of directories in src/scan.rs, and its
-- loops over the attributes of the crate jclassfile; the rest of src/engine.rs, src/main.rs, the
-- file of src/baseline.rs, src/telemetry.rs; the other rules under src/rules, and the text and
-- location of the reports of the lock rule; log events, and the Gradle plugin. They read and write
-- files, call other crates, or stand for later work.
pub mod Base
pub mod Opcodes
pub mod Ir
pub mod Bytecode
pub mod Cfg
pub mod ClassFile
pub mod Descriptor
pub mod Engine
pub mod Dataflow
pub mod Methods
pub mod Rules
pub mod Signature
pub mod TypeUses
pub mod Baseline
pub mod Classpath
pub mod Examples
