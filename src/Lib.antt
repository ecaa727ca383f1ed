-- ===== src/Lib.antt =====
-- PrismSwap: a factory that registers pairs and sets their fees, the pairs themselves, which are
-- constant-product markets of two assets with a share token, a router over several pairs, and the
-- token contract. A user provides liquidity to a pair for shares, withdraws it for them, or swaps one
-- asset for the other; the pair asks the factory for its fees, and the factory instantiates the pair
-- and learns its address from the reply. The pair learns the address of its share token in the same
-- way.
--
-- The files and the code, by its paths in the repository:
--   Base, Base/*           Booleans on numbers, the outcome of a call with its bind, lists of bytes,
--                          division
--   Numbers, Numbers/*     the arithmetic that the contracts call, as a record of operations with the
--                          laws that its crates document, and an instance
--   Asset, Querier         packages/prismswap/src/asset.rs and querier.rs
--   Messages               packages/prismswap/src/pair.rs, factory.rs and token.rs
--   Chain                  what a contract asks of the chain and of other contracts
--   Delivery               the delivery of the messages of a response
--   ParseReply, ParseReply/*
--                          contracts/prismswap_pair/src/parse_reply.rs, of which the file of
--                          contracts/prismswap_factory is a copy; Encode is the encoding that it reads
--   Pair/Error, Pair/State contracts/prismswap_pair/src/error.rs and state.rs
--   Pair/Swap, Pair/Swap/* compute_swap, compute_offer_amount, assert_max_spread and
--                          assert_slippage_tolerance of contracts/prismswap_pair/src/contract.rs
--   Pair/Liquidity, Pair/Liquidity/*
--                          provide_liquidity and withdraw_liquidity of that file
--   Pair/Trade, Pair/Trade/*
--                          swap of that file
--   Pair/Contract, Pair/Contract/*
--                          instantiate, execute, receive_cw20, reply and format_lp_token_name
--   Pair/Query, Pair/Query/*
--                          its queries
--   Pair/Foreign           its swap, provide_liquidity and simulations at an asset of another pair
--   Factory/Fees           FeeConfig of packages/prismswap/src/factory.rs
--   Factory/Pairs, Factory/Pairs/*
--                          the map PAIRS and pair_key of contracts/prismswap_factory/src/state.rs
--   Factory/State          the other items of that file, and migration.rs
--   Factory/Execute, Factory/Execute/*
--                          instantiate, execute, reply and migrate of
--                          contracts/prismswap_factory/src/contract.rs, and the storages that they can
--                          reach
--   Factory/Refines        every entry point of that file that writes, against an abstract register
--   Factory/Query          the queries of that file, read_pairs and querier.rs
--   Router/State           packages/prismswap/src/router.rs and contracts/prismswap_router/src/state.rs
--   Router/Operations      contracts/prismswap_router/src/operations.rs, and into_swap_msg of
--                          packages/prismswap/src/asset.rs
--   Router/Contract, Router/Contract/*
--                          contracts/prismswap_router/src/contract.rs
--   Router/Receive, Router/Legs
--                          a route with the delivery of its messages
--   Token, Token/*         contracts/prismswap_token/src/contract.rs and packages/prismswap/src/token.rs
--   System, System/*       the contracts together: swap of a pair with query_fee_config of the factory,
--                          simulate_swap_operations of the router with the swaps of pairs, and the
--                          creation of a pair by factory, pair and token
--   Market, Market/*       the pair with the ledgers that deliver its messages, against an abstract pool:
--                          execute of contracts/prismswap_pair/src/contract.rs, and all that it calls
--   Tests, Tests/*         the code at small inputs
--
-- How the code is written here. A function of the source that returns a `Result` and may panic gives
-- an `Outcome`: a value, an error, or a panic. A handler takes what the source reads from `Deps` and
-- `Env`, and gives the response together with the storage afterwards where it writes to the storage;
-- an error or a panic reverts the transaction, so it gives no storage. `Uint128`, `Uint256`, `Decimal`
-- and `Decimal256` are the natural number that they hold, a decimal in units of 10^-18, and every
-- operation on them is one of the record `Arith`, with `none` for a panic. Text is its UTF-8 bytes.
--
-- The ledgers around a pair, in Market, and the chain around the router, in Router/Receive, are a
-- record of operations too: what the queries answer in a state, and what state the delivery of a
-- message leads to. A step of the market is a whole transaction: what a message brings, the handler,
-- and the delivery of its response; or whatever somebody else does, which takes nothing from the pair.
-- The balances of the pair are at most 10^18 units there, the size up to which the rounding of a price
-- costs the pool nothing. Which messages the ledgers deliver is said by two more records: a payment
-- that the balance covers, to an account that can be paid, and the burning of shares; a transfer that
-- was granted, and the minting of shares to a valid address within 128 bits. A payment of zero is not
-- among them. Of upper case it is assumed that ASCII text keeps its number of bytes. In Router/Legs the chain delivers a message of the
-- router to itself where the router executes it and what it sends in turn is delivered.
--
-- Bounds: 128 and 256 bits for the integers, as the crates have them; `usize` has 32 bits, since the
-- contracts run on wasm32; the loop over a varint makes 9 rounds, as in the source, and recursion is on
-- the rounds that are left.
--
-- Not modelled: cosmwasm_std, cosmwasm_bignumber, cw_storage_plus, cw_asset and cw20 are not in the
-- repository, nor is terra_cosmwasm. Their arithmetic is the record `Arith`, their queries,
-- address checks and encodings the record `Chain`, and the range of a map an argument of `read_pairs`,
-- with its documented order a hypothesis; a map is an association list.
-- The values of a response's attributes are kept, and not the text that they are formatted to. What
-- cw20_base does for the token contract is a parameter of its entry points.
pub mod Base
pub mod Numbers
pub mod Asset
pub mod Messages
pub mod Chain
pub mod Delivery
pub mod Querier
pub mod ParseReply
pub mod Pair
pub mod Factory
pub mod Router
pub mod Token
pub mod System
pub mod Market
pub mod Tests
