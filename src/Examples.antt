-- ===== src/Examples.antt =====
-- Runs of the theorems on small inputs.
mod Machine
mod Code
mod Engine
mod Program
mod Rules
mod Classpath
mod Baseline
mod ClassFile
mod Methods
mod Signatures
