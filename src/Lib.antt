-- ===== src/Lib.antt =====
-- Verification of the diginaut wallet: the DigiDollar library packages/digidollar-js, the
-- browser wallet apps/wallet, and the client in apps/indexer.
--
-- The program is a wallet for DigiByte and its DigiDollar tokens that runs in a page. The
-- library builds transactions: envelope.js writes what a transaction announces into its version
-- and an OP_RETURN output, index.js computes how much DGB a mint must lock, and txbuild.js
-- chooses coins, computes change and fees, lays out the outputs, signs, and writes the
-- transaction, with the scripts of the collateral from taproot.js; address.js writes and reads
-- the addresses, and says with which script one is paid. The page holds the seed phrases in one
-- encrypted record (keystore.js) that a manager opens, changes and locks (vault.js), while other
-- tabs write the same record. Before a transaction is sent it is entered into a log
-- (broadcastlog.js), so that a send without an answer is not sent a second time by a new one.
-- The indexer (server.js) answers the page's questions with what it asks of an Electrum server,
-- over a socket whose bytes it cuts into lines.
--
-- The files, each with the code that it is about:
--   Prelude      names of the libraries and lemmas on lists, options, results and dictionaries
--   Hex          `hexToBytes` and `bytesToHex`, as every file of packages/digidollar-js/src has them
--   Envelope     packages/digidollar-js/src/envelope.js: Version (`buildDDVersion`,
--                `parseDDVersion`), ScriptNum (`leMinimal`, `leToBigInt`), Pushes (`push`,
--                `readPushes`), Metadata (the builders and parsers of the three kinds)
--   Collateral   packages/digidollar-js/src/index.js: `LOCK_TIERS`, `requiredCollateralSats`
--   Coins        apps/wallet/public/coinpick.js (Pick) and the coin planning of
--                packages/digidollar-js/src/txbuild.js (Plan: `planSpend`, `planMaxSpend`)
--   TxBuild      packages/digidollar-js/src/txbuild.js: `buildTransferOutputs`,
--                `buildRedeemOutputs`, Amounts (what the four `buildSigned…` functions compute
--                before they sign), Wire (`u32le` to `varint`, `serializeTx`, and a reader of the
--                format), Sighash (`taprootSighash`, `bip143Sighash`, the keys and the witnesses),
--                Signed (the four `buildSigned…` functions); Taproot
--                (packages/digidollar-js/src/taproot.js: the leaves of the collateral, its output
--                key, and what a redemption reveals)
--   Vault        apps/wallet/public/keystore.js (Keystore) and apps/wallet/public/vault.js: Manager
--                (`commit`, `createVault`, `unlock`, `migrateV1`), Wallets (`addWallet` to
--                `getMnemonic`), over the state of Vault/State
--   BroadcastLog apps/wallet/public/broadcastlog.js: `createBroadcastLog` and `normalize`, and Txid
--                (`txidFromSignedHex`)
--   Address      packages/digidollar-js/src/address.js: Checksum (`polymod`, `hrpExpand`), Regroup
--                (`convertBits`), Charset (the letters of bech32), Witness (`encodeWitnessAddress`,
--                `decodeWitnessAddress`, `witnessScriptHex`), Base58 (`base58Encode` to
--                `base58CheckDecode`), DigiDollar (`encodeDDAddress`, `decodeDDAddress`,
--                `toDDAddress`), Payment (`legacyScriptHex`, `decodeLegacyAddress`,
--                `decodeAddress`, `scriptPubKeyFromAddress`)
--   Indexer      `ElectrumClient` of apps/indexer/server.js: Frames (the chunks that arrive, and the
--                search for a newline in them), Client (`connect`, `#send`, `#onData`, the listeners
--                of a socket and the timers, as events), TxCache
--                (`createTxCache`), Scan (`ddAmountsByVout`, `scanDDUtxos`), Positions
--                (`scanPositions`, and Rounded, from DGB to satoshis)
--   Text         `===` of two texts, and what is assumed of `toLowerCase`
--   Tests        runs, and the theorems at concrete inputs
--
-- How the code is rendered. A text is the list of its code units, a byte array a list of numbers
-- below 256. BigInts and counts are natural numbers: a difference that the code tests for a
-- negative value is a comparison, and a guard `<= 0n` a test for zero. Numbers that come out of
-- a BigInt are rounded to a double. A function that throws returns an Outcome, with one
-- constructor for each message. An operation of the vault is a function on a World, the object
-- store together with the variables of the tab, which returns the world also when it throws.
-- What other tabs and the handlers of this tab do while a call waits for an encryption is a
-- function on worlds that the call is given, and no theorem assumes anything of it but what its
-- hypotheses say; waits for the storage alone, and those for a decryption (in `unlock`, and in
-- `migrateV1` between the new record and the deletion of the old one), are taken as prompt: no
-- other step comes in there. A wallet id `w<n>` is the number n, and an index of
-- `setReceiveIndex` that is negative or no integer is not in the model (the code takes it as 0).
-- The versions of addresses are natural numbers, and a network is one of the three that the code
-- has: names that only Object.prototype has are not told apart from unknown ones. A callback of
-- the indexer's socket is an event on a Client, and an exception that leaves one is a Crash,
-- which ends the process. In the transactions that the indexer reads, a version is a natural
-- number (a negative one is not in the model) and a value is a double, as a mantissa that is
-- halved so many times; products of it are rounded as doubles are. The messages of the curve's
-- library are one error, `in_library`.
--
-- Parameters, for what stands outside of the repository: the curve, the hashes and the
-- signatures of @noble/curves and @noble/hashes (TxBuild.Curve and TxBuild.Taproot.Library; what
-- a signature has of randomness is fixed in it), of which the theorems on redemptions assume
-- that a hash is bytes, a parity 0 or 1 and an x coordinate 32 bytes (Tests.Signed has an
-- instance), and the one on plans that a key which the library takes has its public keys and its
-- signatures; and PBKDF2, AES-GCM, JSON and the lower case of the browser
-- (Vault.State.Platform), of which only this is assumed: what was encrypted under a key decrypts
-- under it, and what was written as JSON reads back. Tests.Browser has an instance. SHA-256,
-- `toLowerCase` and `toUpperCase` are parameters of the addresses, `Buffer.toString` and
-- `JSON.parse` of the indexer's client. What the indexer asks the server for the unspent outputs
-- of a script is one parameter, which takes the script and has `scriptPubKeyToScripthash` in it.
--
-- Loops. `readPushes` runs on fuel that is the length of the script, and every round reads a
-- byte; `newWalletId` runs on as many rounds as there are wallets, and every round passes one of
-- them. Both are proved to be enough. The loop of `leMinimal` recurs on the proof that its
-- number falls. The loop in `convertBits` that writes groups runs on the number of bits that it
-- holds, the one in `base58Encode` that pushes a carry on the carry itself, and the one in
-- `#onData` that reads frames on the number of bytes that are held and one more: each round
-- takes at least one of them. Every other loop is a recursion on a list.
--
-- Not modelled: what only the tests call (`keyPathSighashForTest`), payment URIs, HD derivation,
-- the export file of keystore.js, the error classes of broadcastlog.js, the faucet,
-- `addressToScripthash`, `enrichTx` and the HTTP routes of the indexer, the wallet's server, and
-- its user interface.
pub mod Prelude
pub mod Hex
pub mod Envelope
pub mod Collateral
pub mod Coins
mod Tests
pub mod Vault
pub mod TxBuild
pub mod BroadcastLog
pub mod Address
pub mod Indexer
pub mod Text
