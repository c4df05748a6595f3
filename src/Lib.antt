-- ===== src/Lib.antt =====
-- A validator's funding pool, contracts/ValidatorFundingPool.sol, and the checks that the operator's
-- and the participants' commands make before and after they move capital into it:
-- scripts/lib/common.ts, which every script of scripts/ calls, and scripts/fund.ts.
--
-- The program. A command of scripts/ (fund.ts, top-up.ts, claim.ts, sweep.ts, request-exit.ts and the
-- others) reads the environment, asks an execution client about the pool and a beacon node about the
-- validator, refuses where an answer is not what it must be, signs, and then reads the mined receipt
-- to say what happened. Each refusal is a `throw` in scripts/lib/common.ts, and nothing is sent before
-- the checks have passed, so the checks carry the safety of a command. The pool keeps the capital: the
-- operator commits a validator and pays 1 ether, opens an attempt in which the participants fund the
-- other 31, and tops the validator up; an attempt that expires is closed, and what it took becomes
-- refunds. Afterwards each participant claims a share of what arrives.
--
-- The files, each with the functions that it models, of scripts/lib/common.ts if nothing else is said:
--   Base          the names that the modules share: tests, lists, signed integers;
--   Failure       the errors, one constructor for a kind of `throw`, and the results of functions
--                 that may throw, with `do` for a sequence of statements;
--   Decimal       CANONICAL_UNSIGNED_DECIMAL, BigInt(text), toString();
--   Text          toLowerCase, trim, split(","), and the patterns for hex text;
--   Value         what JSON.parse returns, asBeaconObject; Value.Print: the text of what is no text;
--   Env           asHex to parseBigIntList, normalizeHexLength, parseDepositAmountGwei,
--                 declaredExpectedPool, assertExpectedPool;
--   Allocation    requireFundingWindowSeconds, assertFundingWindowNotDeclared,
--                 requireFundingAllocation;
--   Fees          resolveSuggestedFees, applyGasMargin, resolveTransactionFields,
--                 fundViaPlainTransfer;
--   Deployment    assertDeploymentRecordShape; Deployment.Live: assertDeploymentChain,
--                 assertDeploymentMatchesPool, assertDeploymentSystemCodeHashes,
--                 assertDeploymentCanonicity, deriveWithdrawalCredentials; Deployment.Forwarder: the
--                 pins on the forwarder and on what is deployed anew;
--   Runtime       maskImmutableRanges, assertRuntimeCodeMatchesLocalBuild;
--   Deposit       readPredepositAndTopUpDepositData, assertContractPredepositWei,
--                 assertCommittedPubkeyMatchesLocal (and ...IfReadable), assertExpectedPubkey;
--                 Deposit.Validate: validateDepositData, the roots and the signing domain;
--   Signer        resolveSigningWallet, assertActiveSigner, waitForSenderVerifiedReceipt and the
--                 comparison of a replaced transaction, assertDeployedAt;
--   Receipt       assertFundingWasCredited, assertPayoutReachedRecipient, decodePoolOutflows,
--                 totalOutflow, assertSweepWasCredited;
--   Pins          assertFundingPins, assertStillFundable;
--   Beacon.Shape  parseBeaconUint64 to assertBeaconSyncingResponseShape, requireBeaconDataEnvelope;
--   Beacon.Read   fetchBeaconJson, assertBeaconNodeHealthy, readBeaconValidatorPreflight,
--                 assertBeaconValidatorWithdrawalCredentials, printBeaconPreflight;
--   Beacon.Fresh  the preflight of fund and top-up, and the recheck before the broadcast;
--   Beacon.Exit   the preflight of request-exit;
--   Beacon.Chain  assertBeaconMatchesExecutionChain, assertBeaconValidatorAbsent,
--                 readBeaconGenesisForkVersion;
--   Pool          contracts/ValidatorFundingPool.sol: its storage, events, views and helpers;
--   Pool.Map      the mappings, and sums over the participants;
--   Pool.Lifecycle the constructor, commitAndPredeposit, openFundingAttempt,
--                 closeExpiredFundingAttempt, topUpValidator;
--   Pool.Payout   fund, receive, requestExit, refundTo, claimTo;
--   Pool.Call     the calls from outside, one after the other;
--   Pool.Invariant the invariant between two calls, and in its folder its lemmas for each call;
--                 Pool.Arith, Refunds, Expiry, TopUp, Funding, Proceeds: the single operations;
--   FundCommand   scripts/fund.ts: the review, the amount, the decision; FundCommand.Committed the
--                 committed data against the deposit-data file, FundCommand.Views what it
--                 reads of the pool and what it sends, FundCommand.Logs what the receipt shows;
--   Forwarder     contracts/FeeRecipientForwarder.sol, and its sweep among the other calls of a block.
-- A file with the component's name holds its definitions, a file in its folder its properties, and
-- Examples the concrete inputs on which the properties are applied.
--
-- The correspondence. A field or a variable keeps its name in the other spelling: `fundingTargetsGwei`
-- is `funding_targets_gwei`. A string is the list of its characters' codes, a bigint or a number that
-- the source knows to be whole and not negative is a number without bound, as a bigint is; what the
-- source bounds to 64 bits is bounded in the definitions. `toLowerCase` is that of the letters A to Z.
-- The answers of the execution client and the outcomes of HTTP requests are arguments, so that a
-- function that awaits is a function of what it receives. Where several requests are awaited together,
-- the first of the source's order that fails is the one reported. A `console.log` has no counterpart.
-- viem's `isAddress`, `decodeEventLog` and `keccak256`, and what the source uses of ssz and of BLS, are
-- parameters: an address test takes whether the letters' case is checked, and a decoder takes a log to
-- an event or to none.
--
-- The pool. `Pool` is the storage and the balance of the contract, `PoolConfig` its immutables; an
-- external function takes the pool, with the value of the call already in its balance, to the pool and
-- the events that it leaves, or to the error that it reverts with, and a revert changes nothing. An
-- address, a hash and a root are numbers; a mapping is an association list, and an absent key has 0.
-- Arithmetic is checked: `checked` and `checked_sub` revert where a result does not fit 256 bits. A loop
-- over the participants is a recursion on their list that carries the fields it writes. Whether the
-- deposit contract, the withdrawal request contract and a recipient accept a call, and what fee is
-- asked, are arguments; keccak256 is a parameter. The lock of `nonReentrant` is left out: each function
-- writes its storage before it sends ether to an account, so that what a recipient calls is a later
-- call. A recipient that sends ether to the pool, or closes an attempt, while it is paid changes the
-- figures of the snapshot that the payout ends with, and nothing else. The deposit contract and the
-- withdrawal request contract do not call back.
--
-- Fuel. `decimal_loop` takes one round for each digit and is given n + 1 rounds for a number n, which
-- is more than n has digits; Decimal.RoundTrip shows that what it writes is the whole numeral. All
-- other loops are recursions on a list or a text.
--
-- Not modelled: the order of the steps inside the scripts but scripts/fund.ts, the order of the checks
-- inside assertDeploymentIntegrity, the reading of files, the report of a fatal error, and output.
pub mod Base
pub mod Decimal
pub mod Text
pub mod Failure
pub mod Value
pub mod Env
pub mod Allocation
pub mod Fees
pub mod Receipt
pub mod Pins
pub mod Beacon
pub mod Signer
pub mod Deployment
pub mod Deposit
pub mod Runtime
pub mod Pool
pub mod FundCommand
pub mod Forwarder
