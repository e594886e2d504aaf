-- ===== src/Tests.antt =====
-- Runs of the model on concrete inputs, and the theorems at inputs that meet their hypotheses.
mod MathTests
mod BitsetTests
mod StackTests
mod BuddyTests
mod PhysicalTests
mod RingTests
mod SchedTests
mod InterruptTests
mod TimeTests
mod IrqchipTests
mod ExceptionTests
mod ClocksourceTests
mod HashmapTests
mod ThreadTests
mod FileTests
mod PathsTests
mod WalkTests
mod PciTests
mod VirtualTests
mod FilesystemsTests
mod SymbolTests
mod VallocTests
mod InitfsTests
mod MemoryTests
mod StringsTests
mod PrintfTests
