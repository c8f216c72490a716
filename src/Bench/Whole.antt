-- ===== src/Bench/Whole.antt =====
-- The whole program: it ends, and has given back all that it took.
use memory_tiering.Base.{List, [], ◌∷◌, ◌++◌, if◌then◌else◌}
use memory_tiering.Bench.Access.{
  MemAccessMode, read, write_normal, write_ntstore, write_clflush, write_clflushopt, write_clwb,
}
use memory_tiering.Bench.Tables.{Features}

-- The modes that the program measures, for a CPU with such features.
abbrev pub modes_for : Features → List MemAccessMode
modes_for f =
    read
    ∷ write_normal
    ∷ write_ntstore
    ∷ write_clflush
    ∷ ((if f.has_clflushopt then write_clflushopt ∷ [] else [])
        ++ (if f.has_clwb then write_clwb ∷ [] else []))
