-- ===== src/Lib.antt =====
-- A model of the canton-localnet command line, the Go program under cli/ that starts a local Canton
-- network of five validator slots with docker compose and looks after it.
--
-- Parts, and the file or directory that models each:
--   Base         the helpers that the parts share: Boolean tests on the native numbers (Nat), lists
--                (Lists, Sorting), results (Results), Go strings (Strings, Order), the digits of a
--                number (Decimal), maps keyed by strings (Maps), and os.Stat with paths (Files).
--   Slot         the slot table and its names, cli/internal/slot/slot.go. Slot/EnvFile is
--                ReadEnvFile, Slot/Resolve is Resolve, and Slot/Resolve/Ci is ResolveCI, all of
--                cli/internal/slot/resolve.go. Slot/Api is the calls that a slot serves: token.go,
--                participant.go, party.go and synchronizers.go of cli/internal/slot.
--   Rights       the rights of a ledger user, cli/internal/rights/rights.go: NewPolicy, preserves,
--                Classify, Validate, NewSince and RevokeGroups. Rights/Json and Rights/Decode read the
--                participant's documents, Rights/Family is Family, and Rights/Client is
--                cli/internal/rights/client.go.
--   Prune        the command rights prune, cli/cmd/canton-localnet/rights.go and exit.go. It runs on
--                Rights and Rights/Client. Prune/Command is the whole command with the minting of
--                its token by Slot/Api, and Prune/Report the plan as it is shown.
--   EnvCommand   the command env, cli/cmd/canton-localnet/env.go: the sh format (Shell), the masking of
--                secrets (Mask, and the runner that reads it in Runner), the text appended to
--                $GITHUB_ENV (Heredoc, and the runner that reads it in Injection), and the PQS fields
--                (Pqs), which take the endpoints of Slot/Resolve. EnvCommand/Snapshot is the variables
--                that need no network call, Prepare the first pass of resolveEnvVars, which
--                composes them with the endpoints of AuthCommand, and Live its second pass, which
--                masks secrets and calls Slot/Api. EnvCommand/Summary is the markdown report of
--                cli/cmd/canton-localnet/env_summary.go.
--   Config       the consumer configuration, cli/internal/yamlconfig/yamlconfig.go: Parse and
--                mergeValidator (Merge), Env and EnabledSlots (Env), Discover and Resolve (Discover).
--                Config/Discover also holds FindRoot of cli/internal/repo/repo.go, the same walk.
--   Compose      the docker compose invocation, cli/internal/compose/compose.go: the options and the
--                slots turned on, and Build with its helpers in Compose/Args.
--   Wallet       the retry loop of cli/internal/wallet/retry.go. Wallet/Amount is the amounts,
--                Wallet/Client the calls, and Wallet/Fund is TapAtLeast, of cli/internal/wallet/wallet.go
--                and fund.go.
--   Health       WaitReady, cli/internal/health/health.go, and in Health/Psql and Health/Watermark the
--                probe of a PQS database and WaitWatermark, cli/internal/pqs/pqs.go.
--   Tunnel       BuildArgs and Open, cli/internal/tunnel/tunnel.go; Tunnel/Ssh is ssh's reading of
--                the arguments.
--   Fixture      the test fixture go/fixture: Fixture/TokenProvider is Token, Invalidate and fetchToken of
--                go/fixture/oauth2_token_provider.go, and its Steps their interleavings.
--   AuthCommand  the endpoints that the commands use, cli/cmd/canton-localnet/auth.go: the
--                configuration of Config laid over the endpoints of Slot/Resolve.
--   Tests        concrete inputs.
-- The other modules below a part are named for what they prove.
--
-- How the code is modelled:
--   A string is the list of its code points, and is taken to be valid UTF-8. An int that is a count
--   or a bound is a natural number; the CI slot and the ports keep their sign; a time.Duration keeps
--   its 64 bits in the retry loop and in the expiry of a token, and is a number elsewhere.
--   A pair of a value and an error is a Result or, in Prune, a state-passing step whose state is the
--   history of the requests sent, newest first. A map is a list of entries in the order in which
--   Go happens to visit it, with no key twice.
--   The world is a parameter: the participant answers a request by the history, os.LookupEnv and
--   os.Stat are functions, a file's content is a function of its path, random suffixes are a sequence
--   of draws that may fail, url.Parse and the parsing of a time are functions, and each call has an answer,
--   by the calls or the events before it. No assumption is made about these functions
--   but those that a theorem states.
--   FindRoot and Discover are recursion on the names of a clean absolute path. The delimiter loop
--   is recursion on its eight tries, and TapAtLeast is recursion on the taps that are
--   left. The retry loop takes fuel: one more than the nanoseconds of its budget is enough, since
--   every sleep lasts at least one. WaitReady and WaitWatermark take fuel: as much as poll intervals
--   fit into the timeout, and one more for the former or two for the latter, is enough.
--   The token provider is a step relation on its fields and on where each caller stands: a step is
--   one section under the mutex, a receive from the channel, or the return of a fetch. A channel
--   is the number of those made before it.
--   An amount is its digits and their scale, and a big.Rat a fraction that need not be in lowest
--   terms, since only its order and its rounding are used.
--   RevokeGroups visits a map in some order: the model lists the groups in the order of their
--   first right and sorts them by a total order, so that the order of the visit does not matter.
--
-- What is not modelled:
--   the bytes of JSON and YAML documents, HTTP headers and URLs, the signature of a token, the
--   messages other than the plan and the report, the parsing of flags, and docker itself. A write
--   to standard output or to an open file is taken to succeed, and a line of an env file to be
--   shorter than 64 KB. The startup checks, the commands' flags and the rest of the Go
--   test fixture are left out, as are the C# fixture, the shell scripts, the compose files and the
--   GitHub action, which are in other languages.
pub mod Base
pub mod Slot
pub mod Rights
pub mod Prune
pub mod EnvCommand
pub mod Config
pub mod Compose
pub mod Wallet
pub mod AuthCommand
pub mod Health
pub mod Tunnel
pub mod Fixture
pub mod Tests
