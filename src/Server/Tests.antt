-- ===== src/Server/Tests.antt =====
-- A system that answers every call, and the theorems at it.
use computersystems_monorepo.Prelude.{
  ℕ, ◌+◌, ◌-◌, ◌^◌, ◌≡◌, refl, arith, true, false, some, [], ◌∷◌, length,
}
use computersystems_monorepo.Posix.{
  Bytes, Info, Answer, Os, recv, read, send, write, fwrite, open_read, open_write, fopen_read,
  fopen_write,
}
use computersystems_monorepo.CText.{codes, Text, signed, octal}
use computersystems_monorepo.Server.{perform_put_command, info_text}
use computersystems_monorepo.Server.Handler.{client_handler}
use computersystems_monorepo.Server.Serve.{usb_mutex, admit}
use computersystems_monorepo.Server.Copies.{written, perform_put_command-written}
use computersystems_monorepo.Server.Resources.{Balanced, admit-Balanced}
use computersystems_monorepo.Server.Ends.{ClosesOnce, client_handler-ClosesOnce}
use computersystems_monorepo.Server.Halts.{Halts, client_handler-Halts}

abbrev plain : Info
plain = record {
  size = 1200;
  owner = 1000;
  group = 2 ^ 32 - 1;
  mode = 33188;
  modified = codes "today";
  is_regular = true;
  is_directory = false;
}

abbrev answer : ℕ → Bytes → Answer
answer code bytes = record { code = code; bytes = bytes; info = plain; error = [] }

-- Files hold "hello", a stream that writes has as number 10 and the length of its path, every
-- count of bytes written is complete, and `send` sends one byte at a time.
abbrev os : Os
os h (fopen_read path) = answer 5 (codes "hello")
os h (fopen_write path) = answer (10 + length path) []
os h (fwrite stream bytes) = answer (length bytes) []
os h (send sock bytes) = answer 1 []
os h (write fd bytes) = answer (length bytes) []
os h (recv sock n) = answer 4 (5 ∷ 0 ∷ 0 ∷ 0 ∷ [])
os h (read fd n) = answer 3 (codes "abc")
os h (open_read path) = answer 7 []
os h (open_write path) = answer 8 []
os h _ = answer 0 []

shown_info :
    info_text (codes "a") plain
    ≡ codes
        "File name: a\nSize: 1200 bytes\nOwner: 1000\nGroup: -1\nPermissions: 644\nLast modified: today"
unfolding info_text signed octal
shown_info = refl

abbrev remote : Text
remote = record { chars = codes "out"; room = 100 }

abbrev local : Text
local = record { chars = codes "in"; room = 100 }

perform_put_command-written_example :
    let h = (perform_put_command [] 4 (some remote) (some local) os []).1 in
    (written 14 h ≡ codes "hello") × (written 15 h ≡ codes "hello")
perform_put_command-written_example =
    perform_put_command-written os (λ h stream bytes. omega arith) [] 4 remote local []
      (omega arith) (omega arith) (omega arith) (omega arith) (omega arith) refl refl

admit-Balanced_example : Balanced usb_mutex [] (admit [] 4 os []).1
admit-Balanced_example = admit-Balanced usb_mutex 4 [] os []

client_handler-ClosesOnce_example : ClosesOnce 4 [] (client_handler 8196 [] 4 os [])
client_handler-ClosesOnce_example =
    client_handler-ClosesOnce 8196 [] 4 os [] (λ h path. omega arith)

client_handler-Halts_example : Halts (client_handler 8196 [] 4 os [])
client_handler-Halts_example =
    client_handler-Halts 8196 [] 4 os [] (λ h sock c cs. omega arith) (omega arith)
