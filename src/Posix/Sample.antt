-- ===== src/Posix/Sample.antt =====
-- Answers for systems on which the theorems are run.
use computersystems_monorepo.Prelude.{ℕ, false, []}
use computersystems_monorepo.Posix.{Bytes, Info, Answer}

-- A file that is neither a regular one nor a directory.
abbrev pub nothing : Info
nothing = record {
  size = 0;
  owner = 0;
  group = 0;
  mode = 0;
  modified = [];
  is_regular = false;
  is_directory = false;
}

abbrev pub answer : ℕ → Bytes → Answer
answer code bytes = record { code = code; bytes = bytes; info = nothing; error = [] }
