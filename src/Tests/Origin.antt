-- ===== src/Tests/Origin.antt =====
-- The history of a small disk: one run of `mint-github` and one of `git-credential`.
use custodly.Prelude.{◌∷◌, none, some, ok, Option}
use custodly.Text.{Text, codes}
use custodly.Cli.Main.{Command, mint, Runtime, main}
use custodly.Cli.Live.{cached_metadata}
use custodly.Vault.Notes.{encode_metadata}
use custodly.Tests.Vault.{tick_clock}
use custodly.Tests.Machine.{signer, plain, answers}
use custodly.Tests.Database.{Disk, disk_host, empty_disk}
use custodly.Tests.Reuse.{silent, terminal, token}
use custodly.Tests.Flow.{command}
use custodly.Map

abbrev server : Runtime Disk
server = record {
  IoError = Unit;
  Listener = Unit;
  bind = λ listen w. (ok tt, w);
  serve_app = λ l routes w. (ok tt, w);
  eprintln = λ line w. record w { printed = line ∷ w.printed };
}

abbrev run_main : Option Command → Disk → Disk
run_main chosen w =
    (main tick_clock disk_host silent signer plain terminal answers server chosen w).1

-- A run without a subcommand, and one that mints.
abbrev idle : Disk
idle = run_main none empty_disk

abbrev last : Disk
last = run_main (some (mint command)) idle

abbrev path : Text
path = codes "redaktly/pat"

abbrev notes : Text
notes =
    encode_metadata tick_clock
      (cached_metadata tick_clock disk_host silent signer plain terminal answers command token 3)
