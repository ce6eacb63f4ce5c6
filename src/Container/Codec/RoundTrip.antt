-- ===== src/Container/Codec/RoundTrip.antt =====
-- Opening what codec.rs (keetanetwork-anchor/src/encrypted_container) has encoded.
use anchor_rs.Prelude.{Option, none, some, List, length, ◌≡◌, refl}
use anchor_rs.Prelude.Outcomes.{success, ◌>>=◌}
use anchor_rs.Container.{Bytes, ContainerBox, plaintext, Crypto, Result}
use anchor_rs.Container.Codec.{
  aes_iv_len, Encryption, box_of, encode, decompress, ContainerBody, plaintext_body, encrypted_body,
  DecodedBody,
}
use anchor_rs.Container.Codec.Opening.{body_of, parse, compressed_of, decode_body}
use anchor_rs.Container.Codec.Laws.{Lawful, CanOpen, encode-success}
use anchor_rs.Container.Codec.Sealed.{
  seal_body-success, parse-encoded, body_in, SealedBox-parsed, SealedBox-opens,
}

module _ (crypto : Crypto) where
  open crypto use {GenericAccount, Blob}

  -- Parsing and decoding, one after the other.
  unfoldable pub open_blob : Blob → List GenericAccount → Result DecodedBody
  open_blob blob openers = do bare ← parse crypto blob; decode_body crypto bare.body openers

  -- An IV as the source's type `[u8; AES_IV_LEN]` makes it.
  unfoldable pub HasIv : Option (Encryption crypto) → Type 0
  HasIv none = Unit
  HasIv (some encryption) = length encryption.material.iv ≡ aes_iv_len

  -- The openers that a box asks for.
  unfoldable pub MayOpen : Option (Encryption crypto) → List GenericAccount → Type 0
  unfolding CanOpen
  MayOpen none openers = Unit
  MayOpen (some encryption) openers = CanOpen crypto encryption.principals openers

module _ (crypto : Crypto) (lawful : Lawful crypto) where
  open crypto use {GenericAccount, Blob, compress_to_vec_zlib}

  -- The body that a box of `encode` is read back as.
  record Reads (box : ContainerBox) (compressed : Bytes) (openers : List GenericAccount)
      : Type 0 where
    body : ContainerBody
    parsed : body_of crypto box ≡ success body
    opened : compressed_of crypto body openers ≡ success compressed

  box_of-Reads :
      (compressed : Bytes) (encryption : Option (Encryption crypto)) (box : ContainerBox)
      (openers : List GenericAccount)
      → HasIv crypto encryption
      → MayOpen crypto encryption openers
      → box_of crypto compressed encryption ≡ success box
      → Reads box compressed openers
  unfolding box_of HasIv MayOpen compressed_of body_of
  box_of-Reads compressed none box openers n m h =
      let same : plaintext compressed ≡ box = cc in
      record { body = plaintext_body compressed; parsed = rw (← same) refl; opened = refl }
  box_of-Reads compressed (some encryption) box openers n m h =
      let sealed = seal_body-success crypto lawful compressed encryption box n h in
      record {
        body = encrypted_body (body_in crypto lawful sealed);
        parsed = SealedBox-parsed crypto lawful encryption compressed box sealed;
        opened = SealedBox-opens crypto lawful encryption compressed box openers sealed m;
      }

  -- What `encode` writes, sealed or not and signed or not, opens to the payload and to the very
  -- bytes that were compressed, for any list of accounts that holds a private key of a principal.
  pub open_blob-encode :
      (payload : Bytes) (encryption : Option (Encryption crypto)) (signer : Option GenericAccount)
      (openers : List GenericAccount) (blob : Blob)
      → HasIv crypto encryption
      → MayOpen crypto encryption openers
      → encode crypto payload encryption signer ≡ success blob
      → open_blob crypto blob openers
        ≡ success (record { compressed = compress_to_vec_zlib payload; plaintext = payload })
  unfolding open_blob decode_body decompress
  open_blob-encode payload encryption signer openers blob n m h =
      let (box, info, b, i, d) = encode-success crypto payload encryption signer blob h in
      let reads = box_of-Reads _ encryption box openers n m b in
      rw
        (
          parse-encoded crypto lawful box info blob reads.body d reads.parsed,
          reads.opened,
          lawful.inflates payload,
        )
        refl
