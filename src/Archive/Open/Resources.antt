-- ===== src/Archive/Open/Resources.antt =====
-- Every path through Open gives back what it does not keep.
use faster_file_copy.Prelude.{
  ℕ, ◌+◌, ◌≡◌, inl, inr, refl, Bool, true, false, ◌||◌, Option, none, some, List, ◌==◌, ltb,
  if◌then◌else◌, length, u32_max, arith, Bool-cases,
}
use faster_file_copy.Archive.State.{FileSystem, MappedArchive, World, bsa_header_size}
use faster_file_copy.Archive.Open.{
  view_mapped, mapping_created, header_read, size_known, file_opened, open_archive,
}
use faster_file_copy.Archive.Open.Finish.{
  Balanced, Released, Attempt, refused, close-Balanced, give_up-Attempt, finish_open-Attempt, Sized,
}

module _ (k j : ℕ) where
  view_mapped-Attempt :
      (fs : FileSystem) (a : MappedArchive) (w : World) (o : Option (List ℕ))
      → Balanced k j a w
      → Sized k j fs a
      → a.base ≡ none
      → Attempt k j fs (view_mapped fs a w o)
  unfolding view_mapped
  view_mapped-Attempt fs a w none b z v = give_up-Attempt k j fs a w b
  view_mapped-Attempt fs a w (some view) b z v =
      finish_open-Attempt k j fs view (record a { base = some view })
        (record w { views = w.views + 1 })
        (record {
          handles_balance = b.handles_balance;
          views_balance = let h = b.views_balance in ground arith;
        })
        (record { at_least = z.at_least; at_most = z.at_most; reported = z.reported })

  mapping_created-Attempt :
      (fs : FileSystem) (a : MappedArchive) (w : World) (o : Option ℕ)
      → Balanced k j a w
      → Sized k j fs a
      → a.map_handle ≡ none
      → a.base ≡ none
      → Attempt k j fs (mapping_created fs a w o)
  unfolding mapping_created
  mapping_created-Attempt fs a w none b z m v = give_up-Attempt k j fs a w b
  mapping_created-Attempt fs a w (some mh) b z m v =
      view_mapped-Attempt fs (record a { map_handle = some mh })
        (record w { handles = w.handles + 1 }) fs.map_view
        (record {
          handles_balance = let h = b.handles_balance in ground arith;
          views_balance = b.views_balance;
        })
        (record { at_least = z.at_least; at_most = z.at_most; reported = z.reported }) v

  header_read-Attempt :
      (fs : FileSystem) (a : MappedArchive) (w : World) (o : Option (List ℕ))
      → Balanced k j a w
      → Sized k j fs a
      → Attempt k j fs (header_read fs a w o)
  unfolding header_read
  header_read-Attempt fs a w none b z = give_up-Attempt k j fs a w b
  header_read-Attempt fs a w (some header) b z =
      elim (Bool-cases (length header == bsa_header_size)) [
        | inl e ↦ rw e (finish_open-Attempt k j fs header a w b z)
        | inr e ↦ rw e (give_up-Attempt k j fs a w b)
      ]

  size_known-Attempt :
      (fs : FileSystem) (full : Bool) (a : MappedArchive) (w : World) (o : Option ℕ)
      → fs.size_of_file ≡ o
      → Balanced k j a w
      → a.map_handle ≡ none
      → a.base ≡ none
      → Attempt k j fs (size_known fs full a w o)
  unfolding size_known
  size_known-Attempt fs full a w none e b m v = give_up-Attempt k j fs a w b
  size_known-Attempt fs full a w (some size) e b m v =
      elim (Bool-cases (ltb size bsa_header_size || ltb u32_max size)) [
        | inl bad ↦ rw bad (give_up-Attempt k j fs a w b)
        | inr good ↦ rw good (sized full (bounds good))
      ]
    where
      balanced : Balanced k j (record a { file_size = size }) w
      balanced = record { handles_balance = b.handles_balance; views_balance = b.views_balance }

      bounds :
          (ltb size bsa_header_size || ltb u32_max size) ≡ false
          → Sized k j fs (record a { file_size = size })
      bounds good = record { at_least = ground arith; at_most = ground arith; reported = e }

      sized :
          (full : Bool)
          → Sized k j fs (record a { file_size = size })
          → Attempt k j fs (
              if full
              then mapping_created fs (record a { file_size = size }) w fs.create_mapping
              else header_read fs (record a { file_size = size }) w fs.read_header)
      sized true z = mapping_created-Attempt fs _ w fs.create_mapping balanced z m v
      sized false z = header_read-Attempt fs _ w fs.read_header balanced z

  file_opened-Attempt :
      (fs : FileSystem) (full : Bool) (a : MappedArchive) (w : World) (o : Option ℕ)
      → Balanced k j a w
      → Released a
      → Attempt k j fs (file_opened fs full a w o)
  unfolding file_opened
  file_opened-Attempt fs full a w none b r = refused refl b r
  file_opened-Attempt fs full a w (some fh) b r =
      size_known-Attempt fs full _ _ fs.size_of_file refl
        (record {
          handles_balance = let h = b.handles_balance in let n = r.no_file in ground arith;
          views_balance = b.views_balance;
        })
        r.no_mapping r.no_view

-- Whatever Win32 answers, and whatever the archive held before: after an attempt to open, the
-- process holds the archive's kernel objects and the ones of others, and no more. The attempt
-- either fails and leaves the archive released and not valid, or succeeds with a valid archive
-- that has a fingerprint other than 0 and the file's size, which fits the BSA's 32-bit offsets.
pub open_archive-Attempt :
    (k j : ℕ) (fs : FileSystem) (full : Bool) (path : List ℕ) (a : MappedArchive) (w : World)
    → Balanced k j a w
    → Attempt k j fs (open_archive fs full path a w)
unfolding open_archive
open_archive-Attempt k j fs full path a w b =
    let c = close-Balanced k j a w b in
    file_opened-Attempt k j fs full _ _ fs.open_file
      (record { handles_balance = c.0.handles_balance; views_balance = c.0.views_balance })
      (record {
        no_file = c.1.no_file;
        no_mapping = c.1.no_mapping;
        no_view = c.1.no_view;
        no_size = c.1.no_size;
        no_fingerprint = c.1.no_fingerprint;
        not_valid = c.1.not_valid;
        no_sizes = c.1.no_sizes;
      })
