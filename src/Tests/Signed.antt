-- ===== src/Tests/Signed.antt =====
-- Runs of what the builders sign and serialize, with a library of toys for the curve and the hashes.
use mathlib.Core.Option.{some-injective}
use diginaut_wallet.Prelude.{
  ℕ, ◌%◌, ◌^◌, ◌<◌, ◌≡◌, refl, subst, List, [], ◌∷◌, ◌++◌, sum, All, length, none, some, ok, arith,
  lt_wf,
}
use diginaut_wallet.Coins.{p2tr, p2wpkh}
use diginaut_wallet.TxBuild.{
  Curve, big_endian, dd_token_output_key, tap_tweak_output_key, p2tr_script, build_transfer_outputs,
  recipient_outputs, dd_change_output, check_minimum, change_output,
}
use diginaut_wallet.TxBuild.Amounts.{transfer_amounts}
use diginaut_wallet.TxBuild.Taproot.{
  Library, collateral_nums_key, collateral_output_key, leaf_root, check_owner_key, tap_leaf_hash,
  tap_branch_hash, tap_tweak_with_root, normal_redemption_script, err_redemption_script,
  push_script_num, push_data, lex_le,
}
use diginaut_wallet.TxBuild.Taproot.Spending.{IsLibrary, Revealed, collateral_output_key-Revealed}
use diginaut_wallet.TxBuild.{all_hex, is_lower_hex}
use diginaut_wallet.Hex.{
  IsByte, hex_to_bytes, bytes_to_hex, pairs, is_line_terminator, hex_digit, parse_pair, digit_value,
  is_space,
}
use diginaut_wallet.Address.Base58.{copies}
use diginaut_wallet.Envelope.Version.{dd_version}
use diginaut_wallet.Envelope.Metadata.{bytes_of, build_transfer_metadata}
use diginaut_wallet.Envelope.ScriptNum.{le_minimal, le_bytes}
use diginaut_wallet.TxBuild.Wire.{
  u32le, le_fixed, u64le, varint, Tx, concat_map, outpoint, serialize_input, with_length,
  serialize_output, serialize_witness, tx_bytes, serialize_tx,
}
use diginaut_wallet.TxBuild.Wire.Reader.{read_tx}
use diginaut_wallet.TxBuild.Wire.RoundTrip.{IsTx, shown_tx, serialize_tx-read_tx}
use diginaut_wallet.TxBuild.Sighash.{
  only_space, hex_number, big_int_of_hex, without_zeros, hex_64, tap_tweak_priv_key,
  p2wpkh_program_hex, p2wpkh_script, x_only_pub_key, script_part, taproot_message, taproot_sighash,
  bip143_preimage, bip143_sighash, p2wpkh_witness, key_path_witness, token_script, dgb_leg_script,
  sign_dgb_leg,
}
use diginaut_wallet.TxBuild.Signed.{
  DgbCoin, DdCoin, SignedDd, map_indexed, dd_input, dgb_input, change_script, transfer_witness,
  build_signed_transfer_tx,
}
use diginaut_wallet.TxBuild.Signed.Legs.{IsCoin, OnWire}
use diginaut_wallet.TxBuild.Signed.Transfer.{IsTransfer, build_signed_transfer_tx-OnWire}
use mathlib.Core.List.{reverse}
use diginaut_wallet.BroadcastLog.Txid.{txid_from_signed_hex}
use diginaut_wallet.BroadcastLog.Txid.Texts.{IsByteTx}
use diginaut_wallet.BroadcastLog.Txid.Signed.{plain_bytes, txid_from_signed_hex-serialize_tx}
use diginaut_wallet.Tests.TxBuild.{zeros, hex_zeros, owner, payee}

abbrev pub toy_hash : List ℕ → List ℕ
toy_hash bytes = sum bytes % 256 ∷ []

abbrev pub toy_curve : Curve
toy_curve = record {
  tap_tweak_hash = λ bytes. toy_hash bytes;
  order = 257;
  tweak_add = λ hex t. some hex;
}

abbrev pub toy_library : Library
toy_library = record {
  curve = toy_curve;
  tagged_hash = λ tag bytes. toy_hash bytes;
  tweak_parity = λ hex t. t % 2;
  sha256 = λ bytes. toy_hash bytes;
  ripemd160 = λ bytes. sum bytes % 256 ∷ zeros 19;
  get_public_key = λ key. some (2 ∷ key);
  get_x_only = λ key. some (zeros 32);
  base_multiply = λ d. some (d, 0);
  ecdsa_sign = λ message key. some (0x30 ∷ zeros 69);
  schnorr_sign = λ message key. some (sum message % 256 ∷ zeros 63);
}

zeros_whole : (x : List ℕ) → some (zeros 32) ≡ some x → All IsByte x × (length x ≡ 32)
unfolding zeros
zeros_whole x h =
    subst (λ y. All IsByte y × (length y ≡ 32)) (some-injective _ _ h) (omega arith, refl)

pub toy_library-IsLibrary : IsLibrary toy_library
unfolding zeros
toy_library-IsLibrary = record {
  hash_bytes = λ bytes. (omega arith, tt);
  parity_bit = λ hex t. omega arith;
  x_only_whole = λ key x h. zeros_whole x h;
}

collateral_run : collateral_output_key toy_library owner 1000 500 ≡ ok collateral_nums_key
unfolding collateral_output_key leaf_root check_owner_key all_hex is_lower_hex tap_leaf_hash
    tap_branch_hash tap_tweak_with_root normal_redemption_script err_redemption_script
    push_script_num push_data lex_le big_endian bytes_of hex_to_bytes pairs is_line_terminator
    parse_pair digit_value is_space le_minimal le_bytes lt_wf hex_zeros
collateral_run = refl

collateral_output_key-Revealed_example : Revealed toy_library owner 1000 500 collateral_nums_key
collateral_output_key-Revealed_example =
    collateral_output_key-Revealed toy_library owner 1000 500 collateral_nums_key
      toy_library-IsLibrary collateral_run

abbrev pub dd_coin : DdCoin
dd_coin = record { txid_hex = owner; vout = 1; dd_cents = 500 }

abbrev pub fee_coin : DgbCoin
fee_coin = record { txid_hex = owner; vout = 0; value_sats = 50_000_000; coin_type = p2wpkh }

abbrev sent : List ℕ
sent =
    0x70 ∷ 7 ∷ 0 ∷ 2 ∷ 0 ∷ 1 ∷ 2 ∷ zeros 32
    ++ (1 ∷ 0 ∷ 0 ∷ 0 ∷ 0 ∷ 0xff ∷ 0xff ∷ 0xff ∷ 0xff ∷ zeros 37
        ++ (0xff ∷ 0xff ∷ 0xff ∷ 0xff ∷ 3 ∷ zeros 8
            ++ (3
                  ∷ 0x51
                  ∷ 0x20
                  ∷ 0xaa
                  ∷ 0x80
                  ∷ 0xd5
                  ∷ 0x43
                  ∷ 2
                  ∷ 0
                  ∷ 0
                  ∷ 0
                  ∷ 0
                  ∷ 0x16
                  ∷ 0
                  ∷ 0x14
                  ∷ 2
                  ∷ zeros 27
                ++ (9 ∷ 0x6a ∷ 2 ∷ 0x44 ∷ 0x44 ∷ 1 ∷ 2 ∷ 2 ∷ 0xf4 ∷ 1 ∷ 1 ∷ 0x40 ∷ 0x78 ∷ zeros 63
                    ++ (2 ∷ 0x47 ∷ 0x30 ∷ zeros 69 ++ (1 ∷ 0x21 ∷ 2 ∷ zeros 36 ++ ([])))))))

abbrev signed : SignedDd
signed = record { hex = bytes_to_hex sent; dd_change_cents = 0; dgb_change_sats = 38_000_000 }

transfer_run :
    build_signed_transfer_tx toy_library dd_coin fee_coin owner none (payee ∷ []) 12_000_000 none
    ≡ ok signed
unfolding build_signed_transfer_tx transfer_amounts x_only_pub_key token_script dd_token_output_key
    tap_tweak_output_key big_endian p2tr_script dgb_leg_script p2wpkh_script p2wpkh_program_hex
    change_script build_transfer_outputs recipient_outputs dd_change_output check_minimum
    change_output bytes_of build_transfer_metadata hex_to_bytes bytes_to_hex le_minimal pairs
    is_line_terminator hex_digit parse_pair digit_value is_space le_bytes lt_wf zeros hex_zeros
    dd_input dgb_input tap_tweak_priv_key big_int_of_hex hex_number only_space hex_64 without_zeros
    map_indexed transfer_witness key_path_witness sign_dgb_leg taproot_sighash taproot_message
    script_part bip143_sighash bip143_preimage p2wpkh_witness serialize_tx tx_bytes u32le le_fixed
    u64le varint concat_map outpoint serialize_input with_length serialize_output serialize_witness
    copies dd_version
transfer_run = refl

pub owner_coin : (vout : ℕ) → vout < 2 ^ 32 → IsCoin owner vout
unfolding hex_to_bytes pairs parse_pair digit_value is_space is_line_terminator hex_zeros
owner_coin vout h = record { whole = refl; small = h }

build_signed_transfer_tx-OnWire_example :
    (tx : Tx) × OnWire toy_library tx ((p2tr, owner) ∷ (p2wpkh, owner) ∷ []) (bytes_to_hex sent)
    × IsTransfer toy_library dd_coin fee_coin (payee ∷ []) 12_000_000 0 38_000_000 tx
build_signed_transfer_tx-OnWire_example =
    build_signed_transfer_tx-OnWire toy_library dd_coin fee_coin owner none (payee ∷ []) 12_000_000
      none signed (omega arith) (owner_coin 1 (omega arith)) (owner_coin 0 (omega arith))
      (omega arith) transfer_run

abbrev plain_tx : Tx
plain_tx = record {
  version = 2;
  locktime = 0;
  inputs =
      record {
        txid_hex = owner;
        vout = 3;
        value_sats = 1000;
        script_pub_key_hex = [];
        sequence = 0xfffffffd;
      }
      ∷ [];
  outputs = record { value_sats = 600; script = 0x51 ∷ 0x20 ∷ zeros 32 } ∷ [];
}

abbrev wire_bytes : List ℕ
wire_bytes =
    2 ∷ 0 ∷ 0 ∷ 0 ∷ 0 ∷ 1 ∷ 1 ∷ zeros 32
    ++ (3
          ∷ 0
          ∷ 0
          ∷ 0
          ∷ 0
          ∷ 0xfd
          ∷ 0xff
          ∷ 0xff
          ∷ 0xff
          ∷ 1
          ∷ 0x58
          ∷ 2
          ∷ 0
          ∷ 0
          ∷ 0
          ∷ 0
          ∷ 0
          ∷ 0
          ∷ 0x22
          ∷ 0x51
          ∷ 0x20
          ∷ zeros 32
        ++ (1 ∷ 2 ∷ 7 ∷ 8 ∷ 0 ∷ 0 ∷ 0 ∷ 0 ∷ []))

serialize_run : serialize_tx plain_tx (((7 ∷ 8 ∷ []) ∷ []) ∷ []) ≡ ok (bytes_to_hex wire_bytes)
unfolding serialize_tx tx_bytes u32le le_fixed u64le varint concat_map outpoint serialize_input
    with_length serialize_output serialize_witness bytes_of hex_to_bytes bytes_to_hex pairs
    is_line_terminator hex_digit parse_pair digit_value is_space zeros hex_zeros
serialize_run = refl

plain_tx-IsTx : IsTx plain_tx (((7 ∷ 8 ∷ []) ∷ []) ∷ [])
plain_tx-IsTx = record {
  small_version = omega arith;
  small_locktime = omega arith;
  all_inputs = (
    record {
      whole = (owner_coin 3 (omega arith)).whole;
      small_vout = omega arith;
      small_sequence = omega arith;
    },
    tt,
  );
  all_outputs = (omega arith, tt);
  witnessed = refl;
}

serialize_tx-read_tx_example :
    (bytes : List ℕ) × (bytes_to_hex wire_bytes ≡ bytes_to_hex bytes)
    × (read_tx bytes ≡ some (shown_tx plain_tx (((7 ∷ 8 ∷ []) ∷ []) ∷ []), []))
serialize_tx-read_tx_example =
    serialize_tx-read_tx plain_tx (((7 ∷ 8 ∷ []) ∷ []) ∷ []) (bytes_to_hex wire_bytes) plain_tx-IsTx
      serialize_run

plain_tx-IsByteTx : IsByteTx plain_tx (((7 ∷ 8 ∷ []) ∷ []) ∷ [])
unfolding zeros
plain_tx-IsByteTx = record { scripts = (omega arith, tt); items = ((omega arith, tt), tt) }

txid_from_signed_hex-serialize_tx_example :
    (plain : List ℕ) × (plain_bytes plain_tx ≡ ok plain)
    × (txid_from_signed_hex toy_hash (bytes_to_hex wire_bytes)
        ≡ ok (bytes_to_hex (reverse (toy_hash (toy_hash plain)))))
txid_from_signed_hex-serialize_tx_example =
    txid_from_signed_hex-serialize_tx toy_hash plain_tx (((7 ∷ 8 ∷ []) ∷ []) ∷ [])
      (bytes_to_hex wire_bytes) plain_tx-IsTx plain_tx-IsByteTx (omega arith) serialize_run
