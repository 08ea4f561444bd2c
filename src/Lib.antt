-- ===== src/Lib.antt =====
-- tacklebox builds bootable media that hold several bootc environments. This library models the
-- parts of it that decide what ends up on a medium.
--
-- A recipe (internal/recipe/recipe.go) names the environments and the sizes of the medium;
-- `recipe-gen` (cmd/tacklebox/recipe_gen.go) fills in its defaults. The build plans the
-- partitions and the shared store from it (cmd/tacklebox/build_plan.go). The images of the
-- environments come from a registry: the client resolves the manifest of a platform
-- (internal/oci/client.go), a reader that resumes broken downloads (internal/oci/resume.go)
-- delivers each layer, a second one around it verifies digest and size, and the layers are
-- applied in order to one root tree (internal/oci/unpack.go). Every environment gets a boot
-- entry, whose kernel command line one package writes (internal/kernelcmdline/kernelcmdline.go)
-- and the verifier reads back (internal/verify/bls.go); the kernel arguments that an image
-- declares are read from its kargs.d (internal/kargsd/kargsd.go). In the delta layout an
-- environment is a base tree and what differs from it (internal/install/treediff.go). An ESP is
-- written into memory (internal/purefs/membackend.go). A root file system is written as an EROFS
-- image (internal/purefs/erofs.go); other releases are resolved from a listing
-- (internal/purefs/sysupdate.go). The inputs of a live boot on one board are checked
-- (internal/liveboot). A live image is an ISO 9660 file system that holds the boot image and the
-- root file systems (internal/purefs/iso9660.go).
--
-- Which file models which part:
-- - Common and the files below it: texts as lists of bytes, their equality, words and prefixes as
--   package strings has them, decimal numbers, Boolean tests on native numbers.
-- - Recipe: the types of the recipe. Recipe/Payload: UnmarshalJSON and MarshalJSON of
--   OfflinePayload. Recipe/Defaults: the defaults and checks of `recipe-gen`.
-- - Plan/Size: parseSize; Plan/Dedup: validateDedupLayout and deltaBaseEnv; Plan/Partitions:
--   computePartitions; Plan/Estimate: estimateStoreUsage and allComposefs. The files below these
--   hold the theorems on them.
-- - Oci/Resume: resumingReader as a state that Read, resume and Close pass on. The pump goroutine
--   of a connection is the list of what it says, chunk by chunk, `quiet` standing for the idle
--   timer; a list that has run out is a connection that stays silent, so the timer fires.
--   Oci/Resume/Invariant, Delivery and Budget are about what a caller sees.
-- - Oci/Blob: verifyingReader over that reader (internal/oci/client.go), with Blob and Close;
--   Oci/Blob/Verified and Accepts are about the end of a download.
-- - Oci/Platform: ResolveManifestForPlatformWithDigest, the legacy ResolveManifest and what they
--   call (internal/oci/client.go); Oci/Platform/Suits and Authentic are about its results.
-- - Oci/Rootfs: Node as a tree, its children as an association list. Oci/Rootfs/Paths:
--   splitClean; Oci/Rootfs/Apply: dirOf, applyEntry and the loops over entries and layers;
--   Entries and Lookup: the laws of children and of Lookup; Layers and Sound: what entries do to
--   a tree.
-- - Cmdline: Append, Live, LiveCombined, LiveDelta and Build. Cmdline/Words: the words of a live
--   entry. Verify/Bls: ParseBLSEntry, BLSOption, BLSSquashimg and CheckBLSResolves.
--   Verify/Bls/Contract: the writer and the verifier together.
-- - Verify/Policy: CheckCombinedPivots and CheckSquashfsReferences (internal/verify/policy.go);
--   Verify/Policy/Groups and Distinct are about the entries that pass.
-- - Verify/Hashes: CheckSquashfsDistinctness and CheckOstreeDeploymentsDistinct
--   (internal/verify/policy.go).
-- - Kargs: Parse, IsConfigName, Arch, identity and split (internal/kargsd/kargsd.go), over the
--   list of a directory's files. Kargs/Files, Split and Distinct are about the arguments that it
--   returns.
-- - Iso: the writer of ISO images (internal/purefs/iso9660.go). Iso/Numbers: its two byte orders;
--   Iso/Spans: extentSpans; Iso/Records: isoName, dirRecord and the records of path tables, with
--   their lengths in Iso/Records/Length; Iso/Tree: the directories of the inputs and their
--   breadth-first list, in which a place stands for a pointer; Iso/Layout: the sizes and places;
--   Iso/Descriptors: the volume descriptors and the boot catalog; Iso/Write: sectorWriter,
--   `write` and WriteIso9660. Iso/Write/Chunks, Image and Fits are about pieces that are written
--   at their sectors, Faithful and Checked about whole images.
-- - Install/Diff: TreeDiff (internal/install/treediff.go) over trees of entries, the delta as a
--   state that the loops pass on. Install/Diff/Overlay: what overlayfs shows of a delta over a
--   base. Install/Diff/Names, Copies, Steps and States are about the parts of diffDir and
--   copyEntry, Faithful about whole deltas.
-- - MemStorage: memStorage (internal/purefs/membackend.go), with `none` for a panic.
--   MemStorage/View: the memory as an array of bytes.
-- - Cpio: cpioWriter, overlayScripts and BuildInitrdOverlayScriptsOnly
--   (internal/purefs/initrdoverlay.go). Cpio/Aligned is about the places of its headers;
--   Cpio/Reader reads an archive of this form, with the laws of numbers and members below it;
--   Cpio/Log is the list of the members that a writer has written, Cpio/RoundTrip the whole
--   overlay read back.
-- - Erofs: the writer of EROFS images (internal/purefs/erofs.go). Erofs/Dirents: packDirents;
--   Erofs/Inodes: `mirror`, in which an inode's place in the list stands for the pointer;
--   Erofs/Links: linkHard, link counts, payloads and the layout; Erofs/Write: the superblock, the
--   inode table and the data. Erofs/Dirents/Reader reads directories as the format has them;
--   Blocks and RoundTrip are about packed ones, Erofs/Links/Numbered, Tree and Walk about the
--   inodes of a tree, Erofs/Write/Data, Sizes, Table, Stored and Succeeds about whole images.
-- - Sysupdate: the newest release of a listing (internal/purefs/sysupdate.go).
--   Sysupdate/Versions: versionLess and what it calls, with Numbers, Tokens and Order about what
--   it decides; Sysupdate/Patterns: its two patterns; Sysupdate/Release: ResolveDdiRelease, with
--   Sorted, Halves, Loop, Names, Lines and Newest about its steps and its result.
-- - Liveboot: checks of the inputs of a live boot (internal/liveboot). Liveboot/Outcome: results,
--   a panic and a loop out of fuel among them; Liveboot/Pe: ARM64PE; Liveboot/Dtb: cstring and
--   rootCompatible, with Fine about them; Liveboot/Board: HasBoardMapping; Liveboot/Inputs:
--   Manifest.Validate and Input.validate, with Paths, Contract and Accepts about what they
--   accept; Liveboot/Kernel: ValidateKernelPair, and Liveboot/Kernel/Matches what it accepts.
-- - Tests: runs and instances at concrete inputs.
--
-- Machine integers: a size is a `uint64`, whose sums and products are reduced modulo 2 ^ 64 where
-- the code computes them. Offsets into a layer (`int64`) and counts of bytes are natural numbers
-- without a bound: a download has fewer than 2 ^ 63 bytes.
--
-- In the ISO writer offsets and sectors (`int64`) are natural numbers and `uint32` and `byte` are
-- reduced where they stand. In the EROFS writer block addresses (`uint32`) wrap around; sizes are
-- natural numbers, and the inode table has fewer than 2^32 blocks.
--
-- Fuel: `diff_dir` has a unit for each entry of the base, more than it has levels.
-- `version_less_from` has a unit for each byte of the first version, and the loops of Liveboot
-- one for each byte that they read. The reader of an overlay has a unit for each member and one
-- more, for the trailer. `breadth_first` has a unit for each directory of the tree, and
-- `spans_from` one for each span and one more. `read_loop` recurs on the attempts that are left
-- and on what the connection has to say, the reader's own fields, and so needs none. `decimal`
-- recurs on fuel that the number itself bounds.
--
-- Parameters: what an input of an image gives when it is opened and read (`Source`), what a
-- registry answers (`OpenAt`, a `get` of manifests), the hash SHA-256, the decoders of manifests
-- and of TOML, the store that takes bodies (`PutBody`), and the caller's choice of bodies to
-- skip, the order in which a map is visited (`iterate`), the embedded scripts (`read_file`), and
-- what package debug/pe makes of a loader (`new_file`). The formats tar, gzip, zstd and JSON are
-- read by packages outside the repository: a layer is the list of its headers and bodies, a
-- payload's JSON the value that package json hands to its methods. A retained copy of a layer
-- (RetainLayer) is left out.
--
-- In the difference of trees system calls succeed, times are left out, and the delta is empty
-- before.
--
-- Not modelled: the commands that run external tools (podman, sgdisk, mksquashfs, QEMU), the
-- writers of boot loaders under internal/purefs, the lifting of kernel modules into an initramfs,
-- the pipeline that downloads layers beside each other, the opening and copying of the inputs of
-- a live boot, the rotation of boot entries, the browser build, and the HTTP client itself. These
-- mostly call tools and packages outside the repository. The checks of scope and arguments of a
-- live boot (internal/liveboot/scope.go) and the small readers under internal/purefs are left out
-- too.
pub mod Common
pub mod Recipe
pub mod Oci
pub mod Cmdline
pub mod Verify
pub mod Plan
pub mod Cpio
pub mod Erofs
pub mod Install
pub mod Iso
pub mod Kargs
pub mod Liveboot
pub mod MemStorage
pub mod Sysupdate
pub mod Tests
