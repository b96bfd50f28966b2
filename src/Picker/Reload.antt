-- ===== src/Picker/Reload.antt =====
-- The hot reload of the signatures (reloadSignatures of parked-picker-classifier.ts).
use threadwork.Prelude.{ℕ, ◌≡◌, refl, true, List, [], ◌==◌, arith}
use threadwork.Picker.{
  PickerSignature, ParkedPickerClassifier, SignaturesFile, absent, readable, reload_from,
  reload_signatures,
}

abbrev pub with_file : SignaturesFile → ParkedPickerClassifier → ParkedPickerClassifier
with_file file c = record c { signatures_file = file }

-- A file that was away is not read again: after the file of the loaded mtime has been missing at one
-- reload, it is back with the same mtime, and the classifier has no signatures.
pub restored_unread :
    (c : ParkedPickerClassifier) (mtime : ℕ) (signatures : List PickerSignature)
    → c.signatures_mtime ≡ mtime
    → (reload_signatures
        (with_file (readable mtime signatures) (reload_signatures (with_file absent c)))).signatures
      ≡ []
unfolding reload_signatures reload_from
restored_unread c mtime signatures e =
    let same : (mtime == c.signatures_mtime) ≡ true = ground (arith, e) in rw same refl
