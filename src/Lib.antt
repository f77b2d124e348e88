-- ===== src/Lib.antt =====
-- Custodly acquires provider credentials, scores how risky they are, and keeps them in a local
-- KeePass vault or hands them, sealed, to Ferryman. The crates are in crates/; this library
-- models their Rust code.
--
-- The parts and their files:
-- - crates/custodly-core/src/tier.rs: the risk tiers and `assess_github_scope`, which reads a
-- scope string such as `repo:read,pr:write`. Tier.antt has the types and `Tier::score`,
-- Tier/Scope.antt the loop; the other files of Tier/ prove what it computes.
-- - crates/custodly-core/src/contract.rs: the `boundary/v1` wire types, in Contract.antt;
-- Wire.antt and the files below it have the JSON that `serde` derives for them, for the body of a
-- deposit, the answers of the routes and the messages to and from GitHub, written in
-- Wire/Write.antt and read in Wire/Read.antt; Wire/Deposit.antt follows a deposit from
-- `mint-github` to what Ferryman reads.
-- - crates/custodly-core/src/entry.rs: metadata with its checked constructor, vault entries and
-- queries, in Entry.antt.
-- - crates/custodly-core/src/policy.rs: the answer to a policy question, in Policy.antt;
-- crates/custodly-core/src/server.rs: the routes that serve it, in Server.antt.
-- - crates/custodly-core/src/seal.rs: sealing a secret for Ferryman, in Seal.antt. Seal/Open.antt
-- has the recipient's side, as the tests of that file write it down.
-- - crates/custodly-core/src/client.rs: the two HTTP calls into Ferryman, in Client.antt.
-- - crates/custodly-github/src/app.rs: the data and `verify_no_scope_creep` in Github.antt,
-- `mint_jwt` in Github/Jwt.antt, `mint_installation_token` in Github/Mint.antt.
-- - crates/custodly-vault/src/password.rs: the vault's password, in Vault/Password.antt;
-- Vault/Race.antt takes the same calls of the keystore one at a time, for several processes at
-- once. crates/custodly-vault/src/vault.rs: the subprocess, `put` and `get` in Vault/Store.antt,
-- the Notes text in Vault/Notes.antt.
-- - crates/custodly-cli/src/main.rs: `parse_permission` and the arguments in Cli.antt,
-- `mint-github` in Cli/Mint.antt with the stages at which it may stop in Cli/Stages.antt,
-- `git-credential` in Cli/Credential.antt, `main` and `serve` in Cli/Main.antt.
-- - The `tests` modules of these files: their assertions as statements, in the files below
-- Unit.antt.
--
-- How they interact: `mint-github` reads the App's key, calls the minting code, which signs a
-- JWT, asks GitHub and checks the grant against the request; a token of tier 2 or for someone
-- else is sealed and deposited through the client, and a token for the local user is put into the
-- vault under metadata that the entry module has checked. `git-credential` reads it back with
-- `get`.
--
-- What the vault promises is stated in Vault/Abstract.antt: a map from paths to secrets with
-- their provenance, the steps that a `put` and a `get` may take on it, and runs of such steps.
-- Vault/Database.antt states what `keepassxc-cli` does with a database, by the arguments that a
-- child was started with and the lines typed into it; Vault/Session.antt, Vault/Child.antt and
-- Vault/Commands.antt follow one run of the program through the keystore, the pipe and the exit
-- status, and Vault/Refine.antt puts the two together. Vault/Processes.antt lets several
-- processes run the commands of their calls in any order, each run of the program as a whole.
--
-- What the vault holds after any number of runs of the program is stated in Cli/History.antt, as
-- what runs of `main` on one vault reach. Cli/Keeps.antt and Cli/Before.antt are about the part
-- of a run before its `put`, Cli/Audit.antt is about what one run puts, and Cli/Origin.antt about
-- histories of runs.
--
-- What a policy question means, apart from the text that asks it, is stated in
-- Policy/Scopes.antt: the set of a scope's pairs, as a quotient of the scope strings. What a
-- Notes text means is stated in Vault/Reads.antt: for each key, the last line that sets it, in
-- the forms of Vault/Forms.antt.
--
-- Effects are functions on a world that carry a result or an error, Prelude/Results.antt; `?` is
-- the sequencing operator there. Every call changes the world that the next call gets, also on
-- its error path. A text is the list of its code points, and Text.antt has the `str` functions
-- that the crates call; Text/Utf8.antt encodes it. Paths are texts. Map.antt is `BTreeMap` as its
-- ordered entries, and stands for the `HashMap` of the Notes parser, which is only written and
-- looked up. Timestamps are integers without a width, and identifiers are natural numbers.
--
-- What is not in the repository is a parameter, with laws only where a theorem names them:
-- `chrono` (Chrono.antt), `reqwest` (Net.antt), the operating system, the `keyring` crate and the
-- random source (Vault/Host.antt, and `Process` in Cli/Mint.antt), `jsonwebtoken`
-- (Github/Jwt.antt), `hex`, `x25519-dalek`, `hkdf` and `chacha20poly1305` (Seal.antt, with their
-- laws in Seal/Open.antt and Seal/Live.antt), `serde_json` with the form that `chrono` gives a
-- time in it (`Serde` in Wire.antt, with its laws in `IsSerde`; `Parsers` in Cli/Mint.antt is
-- what the derived `Deserialize` makes of it, and `parsers` in Wire/Read.antt spells it out), the
-- listener of `axum` (`Runtime` in Cli/Main.antt), and `keepassxc-cli` (`IsDatabase` and
-- `IsAddOnly` in Vault/Database.antt, with the commands as they are typed). `IsApart` in
-- Cli/Keeps.antt and `IsServing` in Cli/History.antt say that the other effects leave the vault's
-- entries alone.
--
-- Bounds and fuel: the loops of the crates run over lists and are structural here. Only
-- `decimal`, in Text/Decimal.antt, is given fuel: the number itself plus one, which is more than
-- it has digits, and its lemma there shows that the digits read back. The generated password has
-- 40 characters, as in the source.
--
-- Not modelled: two runs of `keepassxc-cli` at the same moment; argument parsing by `clap`;
-- `tracing` output; the re-exports of the library roots; of what `serde` derives, the forms that
-- no part of the program writes (a structure given as an array, a variant as an object, a key
-- given twice); the panic on a database path that is not UTF-8.
--
-- Tests.antt and the files below it run the code at concrete inputs and apply the theorems there.
pub mod Chrono
pub mod Cli
pub mod Client
pub mod Contract
pub mod Entry
pub mod Github
pub mod Map
pub mod Net
pub mod Policy
pub mod Prelude
pub mod Seal
pub mod Server
pub mod Tests
pub mod Text
pub mod Tier
pub mod Unit
pub mod Vault
pub mod Wire
