-- ===== src/Lib.antt =====
-- SSC Init takes an inventory of the components on a developer's machine, matches it with threat
-- intelligence and policies, and decides what is reported. This library models the parts of
-- the program that decide: which versions a range holds, what changed since the last inventory, which
-- local rules are violated, and which decision stands for each asset.
--
-- A scan yields an inventory (model). internal/inventory compares it with the one before (Diff) and turns the
-- difference into rows (classify), internal/policy evaluates local rules over the inventory and those rows
-- (Evaluate), internal/analyzer/version says whether an asset's version is in a range (Match), and
-- internal/finding puts findings, the organization's policy and the local violations into one
-- decision per asset (Decide). internal/bundle verifies and installs the signed bundles that the
-- intelligence and the policy come from (Install, Rollback, Active).
--
-- The files:
--   Base                shared: texts, maps, sorted lists and comparisons
--   Version/Semver      internal/analyzer/version/range.go: parseVersion, compare
--   Version/Strict      internal/analyzer/version/osv.go: parseStrictSemver
--   Version/Pep440      internal/analyzer/version/osv.go: parsePEP440, comparePEP440
--   Version/Range       internal/analyzer/version/range.go: matchComparator, matchWindow,
--                       matchWildcard, matchAlternative and the loop of Match
--   Version/Osv         internal/analyzer/version/osv.go: OSVExpression, OSVOpenStart, OSVExact,
--                       matchOSVExpression, compareOSVVersion
--   Version/Match       internal/analyzer/version/range.go: Match
--   Model               internal/model: assets, observations, evidence, changes, findings;
--                       Model/Validity is Finding.Valid
--   Inventory/AssetId   internal/inventory/ladder.go: parseAssetID, displayFor
--   Inventory/Row       internal/inventory/ladder.go: rungs, rows and the maps over an inventory
--   Inventory/Diff      internal/inventory/graph.go: Diff
--   Inventory/Ladder    internal/inventory/ladder.go: classify
--   Policy/Document     internal/policy/document.go and precedence.go: documents, Levels
--   Policy/Shape        internal/policy/shape.go: matchesShape
--   Policy/Pin          internal/policy/pin.go: evaluatePins
--   Policy/Exception    internal/policy/exception.go: validateExceptions, VerifyExceptions,
--                       applyExceptions
--   Policy/Evaluate     internal/policy/evaluate.go: Evaluate
--   Collector           internal/model: targets and coverage;
--                       internal/collector/coverage.go: ApplyTargetContract,
--                       AggregateTargetStatus
--   Finding/Bundle      internal/bundle/model.go, active.go, status.go: the data of a bundle
--   Finding/Rank        internal/finding/correlate.go: ranks and severities
--   Finding/Rules       internal/finding/decision.go: the maps of Decide, organizationRules
--   Finding/Decision    internal/finding/decision.go: Decide, policyFinding
--   Bundle/Tokens       internal/bundle/model.go: hasDuplicateObjectKey
--   Bundle/Library      the code that internal/bundle calls and that is a parameter here
--   Bundle/Payload      internal/bundle/ti.go and policy.go: the validation of payloads
--   Bundle/Envelope     internal/bundle/model.go and verify.go: loadEnvelope, Verify, verifyStored
--   Bundle/Disk         internal/bundle/lifecycle.go: the bundle root and its file operations
--   Bundle/Lifecycle    internal/bundle/lifecycle.go: Install, Rollback
--   Bundle/Status       internal/bundle/status.go and active.go: Status, Active
--   Tests               concrete inputs
-- The modules below these hold proofs and are named for what they prove.
--
-- How the code is read. A string is the list of the code points of valid UTF-8, on which Go's order
-- of bytes is the order of code points; its length in bytes is byte_length. A map is an association
-- list; where Go ranges over a map and then sorts, the keys are taken in the order of the list. sort.Slice is an
-- insertion sort, which keeps the order of items that compare equal; Go may order those otherwise. The
-- results -1, 0 and 1 of comparisons are lt, eq and gt; a pair (matched, valid) is a pair; a zero
-- value with false is none. uint64 is the native number with its wrap written out (% 2 ^ 64). An instant is a
-- number of nanoseconds since the zero time. A string type with constants is a data type with one
-- constructor more for other strings. Lower case and folding are modelled where they meet
-- ASCII letters. All loops are structural recursion over a list, but for the walk of
-- hasDuplicateObjectKey, whose fuel is one more than twice the number of tokens: every round reads a
-- token or is followed by one that does.
--
-- The disk. A bundle root is its files by name and its version and staging directories by path. Every
-- change of it ends as the world says: done, or failed with a part of it done (no file or so many bytes of it
-- for a write, so many files of a removal); a crash is a run in which all later changes fail. A rename is atomic. Reads, tests
-- of the context and readings of the clock are answered from lists in the world too, and an empty list answers that
-- all is well. A root that is a symbolic link or no directory is a read of Status that fails. Making, opening and locking the root are three steps that may fail. Instants of bundles are counted from
-- two years before the zero time, since RFC 3339 can write instants before it.
--
-- Parameters. Library stands for encoding/json (its tokens and its decoding), ed25519,
-- SHA-256, time.Parse, hex, url.Parse and privacy.ContainsSensitiveValue; that a decoded sequence fits
-- 64 bits is a hypothesis. Engines stands for IsValid and Compare of golang.org/x/mod/semver and for the regular
-- expression's submatches in parsePEP440; Runtime for SHA-256 in hexadecimal and time.Parse; Encoders
-- for json.Marshal; MaliciousIndex for an
-- interface that the package does not implement. That semver.Compare is a total preorder is a
-- hypothesis of the one theorem that uses it.
--
-- Not modelled: the collectors themselves, evidence, store, reports, audit, quarantine, schedules, bundle
-- manifests and updates, the command line and the platform layer, which read and write files, databases,
-- processes and the network; Correlate, the building of the inventory and the
-- parsing of documents rest on decoders of JSON and of package coordinates and are left out too.
pub mod Base
pub mod Version
pub mod Model
pub mod Finding
pub mod Bundle
pub mod Inventory
pub mod Policy
pub mod Collector
pub mod Tests
