-- ===== src/Tests/Redemption.antt =====
-- Runs of signed redemptions, mints and plain spends, and their theorems at concrete inputs.
use diginaut_wallet.Coins.Plan.{
  SpendPlan, MaxPlan, plan_spend, plan_max_spend, recipient_output_wu, larger_first,
}
use diginaut_wallet.Coins.Sorting.{sort, sort_onto, insert_before}
use diginaut_wallet.Prelude.{
  sum, ◌+◌, ◌<◌, ◌%◌, ℕ, ◌≡◌, refl, List, [], ◌∷◌, ◌++◌, none, ok, arith, lt_wf,
}
use diginaut_wallet.Coins.{p2tr, p2wpkh}
use diginaut_wallet.TxBuild.{
  big_endian, dd_token_output_key, tap_tweak_output_key, p2tr_script, dd_change_output,
  change_output,
}
use diginaut_wallet.TxBuild.Taproot.{
  collateral_output_key, leaf_root, check_owner_key, tap_leaf_hash, tap_branch_hash,
  tap_tweak_with_root, normal_redemption_script, err_redemption_script, push_script_num, push_data,
  lex_le,
}
use diginaut_wallet.TxBuild.Taproot.Spending.{Revealed}
use diginaut_wallet.TxBuild.{all_hex, is_lower_hex}
use diginaut_wallet.Hex.{
  hex_to_bytes, bytes_to_hex, pairs, is_line_terminator, hex_digit, parse_pair, digit_value,
  is_space,
}
use diginaut_wallet.Address.Base58.{copies}
use diginaut_wallet.Envelope.Version.{dd_version}
use diginaut_wallet.Envelope.Metadata.{bytes_of}
use diginaut_wallet.Envelope.ScriptNum.{le_minimal, le_bytes}
use diginaut_wallet.TxBuild.Wire.{
  u32le, le_fixed, u64le, varint, Tx, concat_map, outpoint, serialize_input, with_length,
  serialize_output, serialize_witness, tx_bytes, serialize_tx,
}
use diginaut_wallet.TxBuild.Sighash.{
  only_space, hex_number, big_int_of_hex, without_zeros, hex_64, tap_tweak_priv_key,
  p2wpkh_program_hex, p2wpkh_script, x_only_pub_key, script_part, taproot_message, taproot_sighash,
  bip143_preimage, bip143_sighash, p2wpkh_witness, key_path_witness, token_script, dgb_leg_script,
  sign_dgb_leg,
}
use diginaut_wallet.TxBuild.Signed.{
  DgbCoin, SignedDd, map_indexed, dd_input, dgb_input, change_script,
}
use diginaut_wallet.TxBuild.Signed.Legs.{OnWire}
use diginaut_wallet.Tests.TxBuild.{zeros, hex_zeros, owner}
use diginaut_wallet.Tests.Signed.{toy_library, toy_library-IsLibrary, owner_coin, dd_coin, fee_coin}
use diginaut_wallet.Tests.TxBuild.{quote}
use diginaut_wallet.TxBuild.{build_redeem_outputs, redeem_data}
use diginaut_wallet.TxBuild.Amounts.{redeem_amounts, mint_amounts, spend_amounts}
use diginaut_wallet.TxBuild.Signed.{
  CollateralCoin, collateral_input, redeem_witness, collateral_witness, check_fee_input,
  build_signed_redeem_tx, sign_redeem_tx, SignedMint, is_known_tier, mint_outputs, mint_change,
  index_of_tier, build_signed_mint_tx, spend_input, build_signed_spend_tx,
}
use diginaut_wallet.Coins.{Utxo}
use diginaut_wallet.Coins.Plan.{output_weight, input_weight, input_count_extra_wu, fee_of_weight}
use diginaut_wallet.Coins.Plan.Accounts.{spend_fee}
use diginaut_wallet.TxBuild.{from_envelope}
use diginaut_wallet.TxBuild.Sighash.Progress.{IsSigningKey, Hashes160}
use diginaut_wallet.TxBuild.Wire.Progress.{IsShortHex}
use diginaut_wallet.TxBuild.Signed.Progress.{
  build_signed_spend_tx-plan_spend, build_signed_spend_tx-plan_max_spend,
}
use diginaut_wallet.TxBuild.Signed.Redeem.{
  IsRedemption, RedeemsOnWire, build_signed_redeem_tx-RedeemsOnWire,
}
use diginaut_wallet.TxBuild.Signed.Mint.{IsMint, build_signed_mint_tx-OnWire}
use diginaut_wallet.TxBuild.Signed.Spend.{IsSpend, build_signed_spend_tx-OnWire}
use diginaut_wallet.TxBuild.Taproot.{
  collateral_control_block_hex, normal_redemption_leaf_hex, normal_redemption_leaf_hash,
}
use diginaut_wallet.Envelope.Metadata.{build_redeem_metadata, build_mint_metadata}
use diginaut_wallet.Envelope.ScriptNum.{to_number}
use diginaut_wallet.Text.{same_text}
use diginaut_wallet.Collateral.{
  lock_tiers, tier_by_id, required_collateral_sats, effective_ratio_percent, ceil_div, base_sats,
  with_margin,
}

abbrev locked_coin : CollateralCoin
locked_coin = record {
  txid_hex = owner;
  vout = 0;
  value_sats = 7_000_000;
  lock_height = 1000;
  dd_cents = 450;
}

abbrev redeemed_bytes : List ℕ
redeemed_bytes =
    0x70 ∷ 7 ∷ 0 ∷ 3 ∷ 0 ∷ 1 ∷ 3 ∷ zeros 37
    ++ (0xfe ∷ 0xff ∷ 0xff ∷ 0xff ∷ zeros 32
        ++ (1 ∷ 0 ∷ 0 ∷ 0 ∷ 0 ∷ 0xfe ∷ 0xff ∷ 0xff ∷ 0xff ∷ zeros 37
            ++ (0xff
                  ∷ 0xff
                  ∷ 0xff
                  ∷ 0xff
                  ∷ 4
                  ∷ 0xc0
                  ∷ 0xcf
                  ∷ 0x6a
                  ∷ 0
                  ∷ 0
                  ∷ 0
                  ∷ 0
                  ∷ 0
                  ∷ 0x22
                  ∷ 0x51
                  ∷ 0x20
                  ∷ zeros 40
                ++ (0x22 ∷ 0x51 ∷ 0x20 ∷ zeros 40
                    ++ (8
                          ∷ 0x6a
                          ∷ 2
                          ∷ 0x44
                          ∷ 0x44
                          ∷ 1
                          ∷ 3
                          ∷ 1
                          ∷ 0x32
                          ∷ 0x80
                          ∷ 0xcc
                          ∷ 6
                          ∷ 2
                          ∷ 0
                          ∷ 0
                          ∷ 0
                          ∷ 0
                          ∷ 0x16
                          ∷ 0
                          ∷ 0x14
                          ∷ 2
                          ∷ zeros 19
                        ++ (3 ∷ 0x40 ∷ 7 ∷ zeros 63
                            ++ (0x2c
                                  ∷ 2
                                  ∷ 0xe8
                                  ∷ 3
                                  ∷ 0xb1
                                  ∷ 0x75
                                  ∷ 0xbb
                                  ∷ 2
                                  ∷ 0xc2
                                  ∷ 1
                                  ∷ 0xbc
                                  ∷ 0x20
                                  ∷ zeros 32
                                ++ (0xac
                                      ∷ 0x22
                                      ∷ 0xc1
                                      ∷ 0x50
                                      ∷ 0x92
                                      ∷ 0x9b
                                      ∷ 0x74
                                      ∷ 0xc1
                                      ∷ 0xa0
                                      ∷ 0x49
                                      ∷ 0x54
                                      ∷ 0xb7
                                      ∷ 0x8b
                                      ∷ 0x4b
                                      ∷ 0x60
                                      ∷ 0x35
                                      ∷ 0xe9
                                      ∷ 0x7a
                                      ∷ 0x5e
                                      ∷ 7
                                      ∷ 0x8a
                                      ∷ 0x5a
                                      ∷ 0x0f
                                      ∷ 0x28
                                      ∷ 0xec
                                      ∷ 0x96
                                      ∷ 0xd5
                                      ∷ 0x47
                                      ∷ 0xbf
                                      ∷ 0xee
                                      ∷ 0x9a
                                      ∷ 0xce
                                      ∷ 0x80
                                      ∷ 0x3a
                                      ∷ 0xc0
                                      ∷ 0x29
                                      ∷ 1
                                      ∷ 0x40
                                      ∷ 3
                                      ∷ zeros 63
                                    ++ (2 ∷ 0x47 ∷ 0x30 ∷ zeros 69
                                        ++ (1 ∷ 0x21 ∷ 2 ∷ zeros 32
                                            ++ (0xe8 ∷ 3 ∷ 0 ∷ 0 ∷ [])))))))))))

abbrev redeemed : SignedDd
redeemed = record {
  hex = bytes_to_hex redeemed_bytes;
  dd_change_cents = 50;
  dgb_change_sats = 34_000_000;
}

redeem_run :
    build_signed_redeem_tx toy_library locked_coin
      (dd_coin ∷ [])
      fee_coin
      owner
      none
      16_000_000
      none
    ≡ ok redeemed
unfolding build_signed_redeem_tx sign_redeem_tx redeem_amounts check_fee_input change_script
    build_redeem_outputs redeem_data build_redeem_metadata dd_change_output dd_input
    collateral_input redeem_witness collateral_witness same_text normal_redemption_leaf_hash
    normal_redemption_leaf_hex collateral_control_block_hex key_path_witness bip143_sighash
    bip143_preimage p2wpkh_witness dd_version collateral_output_key leaf_root check_owner_key
    all_hex is_lower_hex tap_leaf_hash tap_branch_hash tap_tweak_with_root normal_redemption_script
    err_redemption_script push_script_num push_data lex_le x_only_pub_key token_script
    dd_token_output_key tap_tweak_output_key big_endian p2tr_script dgb_leg_script p2wpkh_script
    p2wpkh_program_hex change_output bytes_of hex_to_bytes bytes_to_hex le_minimal pairs
    is_line_terminator hex_digit parse_pair digit_value is_space le_bytes lt_wf zeros hex_zeros
    dgb_input tap_tweak_priv_key big_int_of_hex hex_number only_space hex_64 without_zeros
    map_indexed sign_dgb_leg taproot_sighash taproot_message script_part serialize_tx tx_bytes u32le
    le_fixed u64le varint concat_map outpoint serialize_input with_length serialize_output
    serialize_witness copies
redeem_run = refl

build_signed_redeem_tx-RedeemsOnWire_example :
    (tx : Tx) × (owner_key : List ℕ) × (key : List ℕ) × (x_only_pub_key toy_library owner
      ≡ ok owner_key)
    × (collateral_output_key toy_library owner_key 1000 450 ≡ ok key)
    × RedeemsOnWire toy_library tx owner key
        ((p2tr, owner) ∷ (p2wpkh, owner) ∷ [])
        (bytes_to_hex redeemed_bytes)
    × IsRedemption toy_library locked_coin
        (dd_coin ∷ [])
        fee_coin
        owner
        none
        16_000_000
        50
        34_000_000
        owner_key
        key
        tx
build_signed_redeem_tx-RedeemsOnWire_example =
    build_signed_redeem_tx-RedeemsOnWire toy_library locked_coin (dd_coin ∷ []) fee_coin owner none
      16_000_000 none redeemed toy_library-IsLibrary
      (record {
        collateral_coin = owner_coin 0 (omega arith);
        dd_coins = (owner_coin 1 (omega arith), tt);
        fee_coin = owner_coin 0 (omega arith);
        height = omega arith;
        values = omega arith;
        cents = omega arith;
      })
      redeem_run

abbrev funding : DgbCoin
funding = record { txid_hex = owner; vout = 2; value_sats = 883_762_000_000; coin_type = p2tr }

abbrev minted_bytes : List ℕ
minted_bytes =
    0x70 ∷ 7 ∷ 0 ∷ 1 ∷ 0 ∷ 1 ∷ 1 ∷ zeros 32
    ++ (2
          ∷ 0
          ∷ 0
          ∷ 0
          ∷ 0
          ∷ 0xfd
          ∷ 0xff
          ∷ 0xff
          ∷ 0xff
          ∷ 3
          ∷ 0x80
          ∷ 0xd5
          ∷ 0x9a
          ∷ 0xc3
          ∷ 0xcd
          ∷ 0
          ∷ 0
          ∷ 0
          ∷ 0x22
          ∷ 0x51
          ∷ 0x20
          ∷ 0x50
          ∷ 0x92
          ∷ 0x9b
          ∷ 0x74
          ∷ 0xc1
          ∷ 0xa0
          ∷ 0x49
          ∷ 0x54
          ∷ 0xb7
          ∷ 0x8b
          ∷ 0x4b
          ∷ 0x60
          ∷ 0x35
          ∷ 0xe9
          ∷ 0x7a
          ∷ 0x5e
          ∷ 7
          ∷ 0x8a
          ∷ 0x5a
          ∷ 0x0f
          ∷ 0x28
          ∷ 0xec
          ∷ 0x96
          ∷ 0xd5
          ∷ 0x47
          ∷ 0xbf
          ∷ 0xee
          ∷ 0x9a
          ∷ 0xce
          ∷ 0x80
          ∷ 0x3a
          ∷ 0xc0
          ∷ zeros 8
        ++ (0x22 ∷ 0x51 ∷ 0x20 ∷ zeros 40
            ++ (0x30
                  ∷ 0x6a
                  ∷ 2
                  ∷ 0x44
                  ∷ 0x44
                  ∷ 1
                  ∷ 1
                  ∷ 2
                  ∷ 0x88
                  ∷ 0x13
                  ∷ 3
                  ∷ 0x4d
                  ∷ 0xd6
                  ∷ 0x0f
                  ∷ 1
                  ∷ 3
                  ∷ 0x20
                  ∷ zeros 32
                ++ (1 ∷ 0x40 ∷ 0x3b ∷ zeros 67 ++ ([])))))

abbrev minted : SignedMint
minted = record {
  hex = bytes_to_hex minted_bytes;
  unlock_height = 1_037_901;
  collateral_sats = 883_750_000_000;
  change_sats = 0;
}

mint_run : build_signed_mint_tx toy_library funding owner quote 1000 12_000_000 ≡ ok minted
unfolding build_signed_mint_tx is_known_tier mint_amounts mint_outputs mint_change
    build_mint_metadata index_of_tier lock_tiers tier_by_id required_collateral_sats
    effective_ratio_percent to_number ceil_div base_sats with_margin dd_version
    collateral_output_key leaf_root check_owner_key all_hex is_lower_hex tap_leaf_hash
    tap_branch_hash tap_tweak_with_root normal_redemption_script err_redemption_script
    push_script_num push_data lex_le x_only_pub_key token_script dd_token_output_key
    tap_tweak_output_key big_endian p2tr_script dgb_leg_script p2wpkh_script p2wpkh_program_hex
    bytes_of hex_to_bytes bytes_to_hex le_minimal pairs is_line_terminator hex_digit parse_pair
    digit_value is_space le_bytes lt_wf zeros hex_zeros dgb_input tap_tweak_priv_key big_int_of_hex
    hex_number only_space hex_64 without_zeros map_indexed sign_dgb_leg taproot_sighash
    taproot_message script_part serialize_tx tx_bytes u32le le_fixed u64le varint concat_map
    outpoint serialize_input with_length serialize_output serialize_witness copies
mint_run = refl

build_signed_mint_tx-OnWire_example :
    (tx : Tx) × (owner_key : List ℕ) × (x_only_pub_key toy_library owner ≡ ok owner_key)
    × OnWire toy_library tx ((p2tr, owner) ∷ []) (bytes_to_hex minted_bytes)
    × ((is : IsMint toy_library funding owner_key quote 1000 12_000_000 minted tx) × Revealed
          toy_library owner_key 1_037_901 5000 is.layout.key)
build_signed_mint_tx-OnWire_example =
    build_signed_mint_tx-OnWire toy_library funding owner quote 1000 12_000_000 minted
      toy_library-IsLibrary (omega arith) (omega arith) (owner_coin 2 (omega arith)) (omega arith)
      mint_run

abbrev two_coins : List Utxo
two_coins =
    record {
      txid_hex = owner;
      vout = 1;
      value_sats = 400_000;
      coin_type = p2tr;
      priv_key_hex = owner;
    }
    ∷ record {
      txid_hex = owner;
      vout = 2;
      value_sats = 50_000;
      coin_type = p2wpkh;
      priv_key_hex = owner;
    }
    ∷ []

abbrev spent_bytes : List ℕ
spent_bytes =
    2 ∷ 0 ∷ 0 ∷ 0 ∷ 0 ∷ 1 ∷ 2 ∷ zeros 32
    ++ (1 ∷ 0 ∷ 0 ∷ 0 ∷ 0 ∷ 0xfd ∷ 0xff ∷ 0xff ∷ 0xff ∷ zeros 32
        ++ (2
              ∷ 0
              ∷ 0
              ∷ 0
              ∷ 0
              ∷ 0xfd
              ∷ 0xff
              ∷ 0xff
              ∷ 0xff
              ∷ 2
              ∷ 0xe0
              ∷ 0x93
              ∷ 4
              ∷ 0
              ∷ 0
              ∷ 0
              ∷ 0
              ∷ 0
              ∷ 1
              ∷ 0x51
              ∷ 0xd0
              ∷ 0xfb
              ∷ 1
              ∷ 0
              ∷ 0
              ∷ 0
              ∷ 0
              ∷ 0
              ∷ 1
              ∷ 0x17
              ∷ 1
              ∷ 0x40
              ∷ 0x18
              ∷ zeros 63
            ++ (2 ∷ 0x47 ∷ 0x30 ∷ zeros 69 ++ (1 ∷ 0x21 ∷ 2 ∷ zeros 36 ++ ([])))))

spend_run :
    build_signed_spend_tx toy_library two_coins (b'5' ∷ b'1' ∷ []) 300_000 (b'1' ∷ b'7' ∷ []) 20_000
    ≡ ok (bytes_to_hex spent_bytes, 130_000)
unfolding build_signed_spend_tx spend_amounts spend_input bip143_sighash bip143_preimage
    p2wpkh_witness x_only_pub_key token_script dd_token_output_key tap_tweak_output_key big_endian
    p2tr_script dgb_leg_script p2wpkh_script p2wpkh_program_hex change_output bytes_of hex_to_bytes
    bytes_to_hex le_minimal pairs is_line_terminator hex_digit parse_pair digit_value is_space
    le_bytes lt_wf zeros hex_zeros dgb_input tap_tweak_priv_key big_int_of_hex hex_number only_space
    hex_64 without_zeros map_indexed sign_dgb_leg taproot_sighash taproot_message script_part
    serialize_tx tx_bytes u32le le_fixed u64le varint concat_map outpoint serialize_input
    with_length serialize_output serialize_witness copies
spend_run = refl

build_signed_spend_tx-OnWire_example :
    (tx : Tx) × OnWire toy_library tx
      ((p2tr, owner) ∷ (p2wpkh, owner) ∷ [])
      (bytes_to_hex spent_bytes)
    × IsSpend two_coins (b'5' ∷ b'1' ∷ []) 300_000 20_000 130_000 tx
build_signed_spend_tx-OnWire_example =
    build_signed_spend_tx-OnWire toy_library two_coins (b'5' ∷ b'1' ∷ []) 300_000 (b'1' ∷ b'7' ∷ [])
      20_000 (bytes_to_hex spent_bytes) 130_000
      (owner_coin 1 (omega arith), (owner_coin 2 (omega arith), tt)) (omega arith) spend_run

abbrev script_51 : List ℕ
script_51 = b'5' ∷ b'1' ∷ []

abbrev first_coin : Utxo
first_coin = record {
  txid_hex = owner;
  vout = 1;
  value_sats = 400_000;
  coin_type = p2tr;
  priv_key_hex = owner;
}

abbrev planned : SpendPlan
planned = record { inputs = first_coin ∷ []; fee_sats = 12_100; change_sats = 187_900 }

weight_run : recipient_output_wu script_51 ≡ ok 40
unfolding recipient_output_wu output_weight
weight_run = refl

plan_run : plan_spend two_coins 200_000 100_000 script_51 ≡ ok planned
unfolding plan_spend output_weight sort sort_onto insert_before larger_first
plan_run = refl

owner_key-IsSigningKey : IsSigningKey toy_library owner
unfolding bytes_of hex_to_bytes bytes_to_hex pairs hex_digit parse_pair digit_value is_space
    is_line_terminator big_int_of_hex hex_number big_endian zeros hex_zeros
owner_key-IsSigningKey = record {
  raw = zeros 32;
  number = 0;
  public_key = 2 ∷ zeros 32;
  x = zeros 32;
  point = (0, 0);
  output_key = zeros 32;
  is_raw = refl;
  is_number = refl;
  is_public = refl;
  compressed = refl;
  is_x = refl;
  x_bytes = omega arith;
  x_whole = refl;
  is_point = refl;
  tweak_below = omega arith;
  tweaked = refl;
  output_bytes = omega arith;
  output_whole = refl;
  ecdsa = λ message. (0x30 ∷ zeros 69, refl, omega arith);
  schnorr = λ message tweaked_hex key tweaked read. (sum message % 256 ∷ zeros 63, refl, refl);
}

owner_read : from_envelope (bytes_of owner) ≡ ok (zeros 32)
unfolding bytes_of hex_to_bytes pairs parse_pair digit_value is_space is_line_terminator zeros
    hex_zeros
owner_read = refl

short_51 : IsShortHex script_51
unfolding bytes_of hex_to_bytes pairs parse_pair digit_value is_space is_line_terminator
short_51 = (0x51 ∷ [], refl, omega arith)

twenty_bytes : Hashes160 toy_library
unfolding zeros
twenty_bytes bytes = ((omega arith, omega arith), refl)

build_signed_spend_tx-plan_spend_example :
    (hex : List ℕ) × (build_signed_spend_tx toy_library
        (first_coin ∷ [])
        script_51
        200_000
        script_51
        12_100
      ≡ ok (hex, 187_900))
build_signed_spend_tx-plan_spend_example =
    build_signed_spend_tx-plan_spend toy_library twenty_bytes two_coins 200_000 100_000 script_51 40
      planned script_51 weight_run plan_run
      (record { txid = (zeros 32, owner_read); key = owner_key-IsSigningKey }, tt) (omega arith)
      short_51 short_51

abbrev all_planned : MaxPlan
all_planned = record { inputs = two_coins; fee_sats = 14_600; amount_sats = 435_400 }

plan_max_run : plan_max_spend two_coins 100_000 script_51 ≡ ok all_planned
unfolding plan_max_spend output_weight input_weight input_count_extra_wu fee_of_weight
plan_max_run = refl

build_signed_spend_tx-plan_max_spend_example :
    (two_coins ≡ two_coins)
    × (14_600 ≡ spend_fee 100_000 40 two_coins)
    × (450_000 ≡ 435_400 + 14_600)
    × (0 < 435_400)
    × ((hex : List ℕ) × (build_signed_spend_tx toy_library two_coins script_51 435_400 script_51
            14_600
          ≡ ok (hex, 0)))
build_signed_spend_tx-plan_max_spend_example =
    build_signed_spend_tx-plan_max_spend toy_library twenty_bytes _ _ 100_000 script_51 40
      all_planned script_51 weight_run plan_max_run
      (
        record { txid = (zeros 32, owner_read); key = owner_key-IsSigningKey },
        (record { txid = (zeros 32, owner_read); key = owner_key-IsSigningKey }, tt),
      )
      (omega arith) short_51 short_51
