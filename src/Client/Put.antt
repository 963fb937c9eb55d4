-- ===== src/Client/Put.antt =====
-- What the client never does.
use computersystems_monorepo.Prelude.{
  ℕ, ◌≡◌, refl, true, ◌==◌, Option, none, some, ◌∷◌, if◌then◌else◌,
}
use computersystems_monorepo.Posix.{Bytes, Os, Trace, fopen_write, minus_one}
use computersystems_monorepo.CText.{codes}
use computersystems_monorepo.Client.{exits, refuses, put_command}
use computersystems_monorepo.Client.Main.{run_command}

pub refuses-none : (fp2 : Option ℕ) → refuses none fp2 ≡ true
refuses-none none = refl
refuses-none (some stream) = refl

abbrev pub devices_opened : Os → Trace → Trace
devices_opened os h =
    let h₁ = (fopen_write (codes "/dev/sdb1"), os h (fopen_write (codes "/dev/sdb1"))) ∷ h in
    (fopen_write (codes "/dev/sdc1"), os h₁ (fopen_write (codes "/dev/sdc1"))) ∷ h₁

-- Whatever the arguments and the answers of the system, PUT opens the two devices for writing and then
-- returns -1: it sends nothing, and what stands behind the tests is never reached.
pub put-exits :
    (stack : Bytes) (client_sock socket_desc : ℕ) (remote : Bytes) (local : Option Bytes) (os : Os)
    (h : Trace)
    → run_command stack client_sock socket_desc (codes "PUT") remote local os h
      ≡ (exits minus_one, devices_opened os h)
unfolding run_command put_command
put-exits stack client_sock socket_desc remote local os h =
    let h₁ = (fopen_write (codes "/dev/sdb1"), os h (fopen_write (codes "/dev/sdb1"))) ∷ h in
    let code = (os h₁ (fopen_write (codes "/dev/sdc1"))).code in
    rw (refuses-none (if code == 0 then none else some code)) refl
