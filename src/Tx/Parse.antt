-- ===== src/Tx/Parse.antt =====
-- tx_parse: which transactions it accepts, and what it leaves for the display.
use ledger_sovereign.Base.{
  ℕ, ◌%◌, ◌^◌, ◌<◌, ◌≡◌, ◌≢◌, refl, ap, ◌∙◌, true, none, some, List, [], ◌∷◌, arith, length, take,
}
use ledger_sovereign.Base.Text.{codes}
use ledger_sovereign.Platform.{Format, Buffering}
use ledger_sovereign.Parser.{
  ParserError, ParserContext, ParserTx, deref, parser_parse, parser_get_error_description,
}
use ledger_sovereign.Parser.Validate.{parse_accepts, parse_rejects, validate_ok}
use ledger_sovereign.Tx.{TxState, zero_tx, tx_get_buffer, tx_get_buffer_length, tx_parse}

pub length-zero {ℓ} : {A : Type ℓ} (xs : List A) → length xs ≡ 0 → xs ≡ []
length-zero [] h = refl
length-zero (x ∷ xs) h = absurd (omega arith)

-- The state after a parse in which both items of the transaction can be shown.
pub record Shows {B : Type 0} (s : TxState B) (blob : List ℕ) : Type 0 where
  pub points : s.ctx_parsed_tx.tx_obj ≡ true
  pub readable : deref s.tx_obj.tx_blind_signature ≡ some blob

pub take_all {ℓ} : {A : Type ℓ} (xs : List A) → take (length xs) xs ≡ xs
take_all [] = refl
take_all (x ∷ xs) = λ i. x ∷ take_all xs i

module _ {B : Type 0} (b : Buffering B) (s : TxState B) where
  -- What parser_parse leaves when tx_parse calls it.
  abbrev pub parsed : ParserError × ParserContext × ParserTx
  parsed =
      parser_parse s.ctx_parsed_tx (some (tx_get_buffer b s)) (tx_get_buffer_length b s) zero_tx

  abbrev pub after_parse : TxState B
  after_parse = record s { tx_obj = parsed.2; ctx_parsed_tx = parsed.1 }

module _ {B : Type 0} (b : Buffering B) (f : Format) (s : TxState B)
    (short : length (tx_get_buffer b s) < 2 ^ 16) where
  parsed_ok :
      tx_get_buffer b s ≢ []
      → ((parsed b s).0 ≡ ParserError.ok)
        × ((parsed b s).1.tx_obj ≡ true)
        × (deref (parsed b s).2.tx_blind_signature
            ≡ some (take (length (tx_get_buffer b s) % 2 ^ 16) (tx_get_buffer b s)))
  parsed_ok filled =
      parse_accepts s.ctx_parsed_tx (tx_get_buffer b s) zero_tx
        (λ none_left. filled (length-zero (tx_get_buffer b s) (omega arith)))

  -- tx_parse accepts a message of 1 to 65535 bytes, without a fault; the buffer stays as it is, and
  -- the context from which the display is drawn is over the whole message.
  pub tx_parse_accepts :
      tx_get_buffer b s ≢ []
      → (tx_parse b f s ≡ some (none, after_parse b s))
        × Shows (after_parse b s) (tx_get_buffer b s)
  unfolding tx_parse
  tx_parse_accepts filled =
      let (ok, points, readable) = parsed_ok filled in
      (
        rw (ok, tx_parse) (rw (validate_ok f (parsed b s).1 (parsed b s).2 _ points readable)),
        record {
          points = points;
          readable =
              readable
              ∙ ap (λ n. some (take n (tx_get_buffer b s))) (omega arith)
              ∙ ap some (take_all (tx_get_buffer b s));
        },
      )

  -- An empty message is refused with the text for an empty context.
  pub tx_parse_empty :
      tx_get_buffer b s ≡ []
      → tx_parse b f s ≡ some (some (codes "Initialized empty context"), after_parse b s)
  unfolding tx_parse parser_get_error_description
  tx_parse_empty empty =
      rw (parse_rejects s.ctx_parsed_tx (tx_get_buffer b s) zero_tx (rw empty refl), tx_parse)
