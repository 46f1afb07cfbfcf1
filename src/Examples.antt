-- ===== src/Examples.antt =====
-- A small arena under the `fast` profile, and the theorems applied to it and to other concrete
-- inputs.
mod Heap
mod Core
mod Parts
mod Queue
mod Threads
mod Arenas
mod Confined
mod Programs
