-- ===== src/Examples.antt =====
-- Runs of the models at concrete inputs, and the theorems applied to them.
mod OfRing
mod OfTaggedPtr
mod OfSlab
mod OfMemoryManager
mod OfScheduler
mod OfOptimizer
mod OfTokenizer
mod OfEmitter
mod OfMath
mod OfProcessingUnit
mod OfCanvas
mod OfMonitor
mod OfPanel
mod OfFrame
mod OfDocument
mod OfInputIngest
mod OfProgram
mod OfArm64
mod OfHnswIndex
