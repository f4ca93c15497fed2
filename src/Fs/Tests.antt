-- ===== src/Fs/Tests.antt =====
-- The theorems on src/fs.c at concrete inputs.
use waka_b4_research.Base.{
  ℕ, zero, suc, ◌+◌, ◌^◌, ◌<◌, ◌≡◌, refl, arith, true, false, none, [], ◌∷◌, ok,
}
use waka_b4_research.Fs.{balloc, bfree}
use waka_b4_research.Fs.Bitmap.{BallocEnds}
use waka_b4_research.Fs.Alloc.{balloc_lem, bfree_lem, BfreeEnds}
use waka_b4_research.Fs.Inode.{Inode, bmap, iupdate}
use waka_b4_research.Fs.Inode.Bmap.{BmapEnds, bmap_lem}
use waka_b4_research.FsLog.{Journal, at_boot}
use waka_b4_research.Fs.Content.Logged.{
  logged_writei, LoggedEnds, logged_writei_lem, LoggedBack, readi-logged_writei,
}
use waka_b4_research.Fs.Directory.{dirlookup, dirlink}
use waka_b4_research.Fs.Directory.Named.{NamedEnds, dirlookup-IsNamed}
use waka_b4_research.Fs.Directory.Linked.{FoundAfter, dirlookup-dirlink}
use waka_b4_research.Fs.Namex.{namex}
use waka_b4_research.Fs.Namex.Ends.{resolve_path, namex-resolve}
use waka_b4_research.Fs.Icache.{Icache, inode_at, put_inode, no_inode, is_in_use, iget, ilock}
use waka_b4_research.Fs.Icache.Unique.{AreUnique, IgetEnds, iget_lem}
use waka_b4_research.Fs.Icache.Lock.{ilock-iupdate}
use waka_b4_research.Fs.Example.{
  zeros-AreWords, six_blocks, zeros, file, counting, counting-AreBytes, disk, disk-IsVolume,
  file-IsFile, file-IsDense, buffer, directory, directory-IsDirectory, not_in_directory,
  letter-IsText, directory-IsFile, disk_with-AreBytes, dot_entry, dot_entry-AreBytes,
}

balloc_lem_example : BallocEnds six_blocks disk (balloc six_blocks disk)
balloc_lem_example = balloc_lem six_blocks disk disk-IsVolume

bmap_lem_example : BmapEnds six_blocks 12 file disk (bmap six_blocks 12 file disk)
bmap_lem_example = bmap_lem six_blocks 12 file disk file-IsFile (omega arith)

-- A log with one operation under way and nothing in it.
abbrev journal : Journal
journal = record (at_boot 2 31) { outstanding = 1 }

logged_writei_lem_example :
    LoggedEnds six_blocks 1 600 50 buffer file disk journal
      (omega arith)
      (logged_writei six_blocks none 50 1 600 file disk buffer journal)
logged_writei_lem_example =
    logged_writei_lem six_blocks 1 600 50 buffer file disk journal (omega arith) none
      (λ e. omega arith) file-IsFile file-IsDense (omega arith) (λ i. omega arith) (omega arith)
      (omega arith)

readi-logged_writei_example :
    LoggedBack six_blocks 1 600 50 buffer file disk journal
      (omega arith)
      none
      900
      (λ i. 0)
      (logged_writei six_blocks none 50 1 600 file disk buffer journal)
readi-logged_writei_example =
    readi-logged_writei six_blocks 1 600 50 buffer file disk journal (omega arith) none 900 (λ i. 0)
      none (λ e. omega arith) file-IsFile file-IsDense (omega arith) (λ i. omega arith)
      (omega arith) (omega arith)

one_inode-AreUnique : AreUnique (file ∷ no_inode ∷ [])
one_inode-AreUnique = record { one = one }
  where
    one :
        (i j : ℕ)
        → is_in_use (inode_at (file ∷ no_inode ∷ []) i).ref ≡ true
        → is_in_use (inode_at (file ∷ no_inode ∷ []) j).ref ≡ true
        → (inode_at (file ∷ no_inode ∷ []) i).dev ≡ (inode_at (file ∷ no_inode ∷ []) j).dev
        → (inode_at (file ∷ no_inode ∷ []) i).inum ≡ (inode_at (file ∷ no_inode ∷ []) j).inum
        → i ≡ j
    one zero zero p q d n = refl
    one zero (suc zero) p q d n = ground arith
    one zero (suc (suc j)) p q d n = ground arith
    one (suc zero) j p q d n = ground arith
    one (suc (suc i)) j p q d n = ground arith

few_references : (i : ℕ) → (inode_at (file ∷ no_inode ∷ []) i).ref + 1 < 2 ^ 31
few_references zero = omega arith
few_references (suc zero) = omega arith
few_references (suc (suc i)) = omega arith

iget_lem_example : IgetEnds 1 5 (file ∷ no_inode ∷ []) (iget 1 5 (file ∷ no_inode ∷ []))
iget_lem_example = iget_lem 1 5 (file ∷ no_inode ∷ []) one_inode-AreUnique few_references

bfree_lem_example : BfreeEnds six_blocks disk disk-IsVolume 3 (bfree six_blocks 3 disk)
bfree_lem_example =
    bfree_lem six_blocks disk disk-IsVolume 3 (omega arith) (λ e. omega arith)
      (λ (low, high). omega arith) (λ (i, lt, e). omega arith)

-- An entry for inode 1 that is not valid.
abbrev cold : Inode
cold = record no_inode { dev = 1; inum = 1; ref = 1 }

abbrev cold_cache : Icache
cold_cache = record { inodes = cold ∷ []; volume = disk }

ilock-iupdate_example :
    ilock six_blocks 1 0 (record cold_cache { volume = iupdate six_blocks file disk })
    ≡ ok (put_inode 0 file (record cold_cache { volume = iupdate six_blocks file disk }))
ilock-iupdate_example =
    ilock-iupdate six_blocks 1 0 file cold_cache
      (record {
        type_half = omega arith;
        major_half = omega arith;
        minor_half = omega arith;
        nlink_half = omega arith;
        size_word = omega arith;
        slots = refl;
        addr_words = (omega arith, zeros-AreWords 12);
      })
      (λ e. omega arith) refl refl refl refl

dirlookup-IsNamed_example :
    NamedEnds six_blocks
      (b'.' ∷ [])
      (omega arith, tt)
      0
      1
      directory
      (dirlookup six_blocks counting (b'.' ∷ []) 0 directory)
dirlookup-IsNamed_example =
    dirlookup-IsNamed six_blocks (b'.' ∷ []) (omega arith, tt) counting 0 directory
      (disk_with-AreBytes dot_entry dot_entry-AreBytes) directory-IsDirectory

dirlookup-dirlink_example :
    FoundAfter six_blocks
      (b'a' ∷ [])
      5
      letter-IsText
      (omega arith)
      (λ e. omega arith)
      1
      0
      directory
      (omega arith)
      directory-IsDirectory
      directory-IsFile
      (omega arith)
      (dirlink six_blocks 1 counting (b'a' ∷ []) 5 0 directory)
dirlookup-dirlink_example =
    dirlookup-dirlink six_blocks (b'a' ∷ []) 5 letter-IsText (omega arith) (λ e. omega arith) 1 0
      directory (omega arith) directory-IsDirectory directory-IsFile (omega arith) not_in_directory
      counting counting-AreBytes

namex-resolve_example :
    namex six_blocks 1 counting false 0 (b'.' ∷ b'/' ∷ b'a' ∷ []) (zeros 14) directory
    ≡ resolve_path six_blocks 1 counting false 0 (b'.' ∷ b'/' ∷ b'a' ∷ []) (zeros 14) directory
namex-resolve_example =
    namex-resolve six_blocks 1 counting false 0 (b'.' ∷ b'/' ∷ b'a' ∷ []) (zeros 14) directory
      (λ e. omega arith, (λ e. omega arith, (λ e. omega arith, tt)))
