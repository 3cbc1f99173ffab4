-- ===== src/Lib.antt =====
-- Verification library of Invenio-Files-REST (package `invenio_files_rest`): the storage of files in
-- buckets as versions of objects, with their limits, tags, snapshots and multipart uploads.
--
-- The program keeps its state in tables of a database, which the classes of invenio_files_rest/models.py
-- read and change in a session; a REST interface and background tasks call those classes. The
-- contents of files lie in a storage backend that the configuration names.
--
-- Each file models one part:
--   Prelude          Boolean tests, integers (`ℤ` over the native numbers), tables as lists of rows
--                    (`select`, `count`, `update`, `delete`), stable sorting as `ORDER BY`
--   Errors           errors.py: the exceptions and their status codes
--   Schema           the columns of models.py as records, the tasks, FileSizeLimit and the configuration
--   Session          an operation is a function from the session to a result, or the exception that was
--                    raised, and the session that it leaves. `begin_nested` is a savepoint: an exception
--                    restores the tables as they were before it. Identifiers (`uuid4`) and times
--                    (`utcnow`) are drawn from streams of the session, and `delay` appends to its queue
--   Session/Keeps    invariants of tables and the rules by which operations keep them
--   Config           config.py: the defaults
--   Limiters         limiters.py, Bucket.quota_left and Bucket.size_limit; bounds in Limiters/Bounds
--   Storage          storage/base.py: the backend's methods as a record of functions, which the models
--                    take as a parameter; Storage/Writing is `_write_stream` with its size checks, and
--                    Storage/Bounds what it guarantees. Storage/Pyfs and Storage/Factory are
--                    storage/pyfs.py; Storage/Laws says what is documented of a file system,
--                    Storage/Copying how the loop runs on a disk, and Storage/Saving what a file
--                    holds after `save`
--   FileInstance     class FileInstance: identity, contents, checksums, deletion
--   Location         class Location
--   Bucket           class Bucket; Bucket/Mirror has snapshot and sync, Bucket/Syncing
--                    is about targets that are up to date
--   Tags             BucketTag (Tags/OfBucket) and ObjectVersionTag (Tags/OfVersion); Tags/Laws has
--                    what is read after a tag of a bucket is written or deleted, Tags/Copying that
--                    of a version after tags are copied to it
--   ObjectVersion    class ObjectVersion: Reading (queries), Creating (create, set_contents,
--                    set_location, set_file), Changing (copy, restore, remove, delete, relink_all,
--                    copy_from). Framing has what these leave alone, Quota that contents are saved
--                    within the quota. Heads, Steps, Invariant, Operations, Effects and Restoring
--                    hold the proofs; Store states what the objects are to a client, a map from
--                    bucket and key to a file, and Store/Refinement that the operations implement it
--   Multipart        MultipartObject and Part: Sizes (part numbers and bytes), Parts, Uploads; the
--                    proofs are in Tiling, Completing, Merging, Invariant, Numbers, Adding and Quota
--   Tasks            tasks.py: what a worker does; Scheduling is schedule_checksum_verification. Removal
--                    and Orphans hold what the tasks that delete files guarantee, Batches how much a
--                    batch holds, and Invariant that the tasks keep the versions well-formed
--   Permissions      permissions.py: the needs of actions and the default factory
--   Rest             views.py and the factories of ext.py: Request (what webargs hands to the views, and
--                    what they answer), Factories (uploads and tags of a request), Access (permissions
--                    and the decorators), Objects, Uploads and Views (the resources' methods). Denied,
--                    Heads, Removing, UploadInvariant, Invariant, PartSizes, PartRequests and
--                    HeaderTags hold the proofs; Quota is about the quota of the bucket that an object is uploaded to
--   Cli              cli.py: the commands on buckets and locations; Cli/Defaults, Cli/Running and
--                    Cli/Choosing hold the proofs about the default location
--   Extension        ext.py and utils.py: the configuration and the objects that it names
--   Admin            admin.py: the validator of names and the action that sends fixity checks off
--   Session/Reads    actions that change nothing, and actions that are bound to raise; Session/Outcomes
--                    has what an action leaves where it returns
--   Serializer       serializer.py: the fields and links of each schema; Serializer/Response is
--                    json_serializer, Serializer/Waiting the response that waits for a task
--   FormParser       formparser.py: the choice of a parser for a form
--   Helpers          helpers.py: Checksums (`compute_checksum`), Mimetypes (`send_stream`), Paths
--                    (`make_path`), Populating (`populate_from_path`), Sending (how the file of a
--                    version is sent, with utils.py's guess of its type)
--   History          sequences of operations, tasks and requests
--
-- A method of a row is a function of the row's identifier, which is looked up again at each use, so
-- that two references to a row see each other's changes as they do in an SQLAlchemy session. Foreign
-- keys that the code relies on are checked where the operation would fail.
--
-- Loops are structural recursion on the lists that they run over, and no definition uses fuel. A stream
-- is the finite list of the chunks that its reads return. Sizes of files are natural numbers;
-- the lengths that a request announces are integers, and so is the size of a bucket, since the code
-- subtracts from it without a check.
--
-- A commit is the identity, and an exception leaves the session as the code leaves it; that a web
-- server rolls back what a failed request did not commit is not part of the model.
--
-- Parameters: the storage backend, the size limiters that the configuration names, the order of
-- the database on keys, and the interval and the query of files that checksum verification is
-- configured with; for the extension the import of an object by its name, for the administration
-- which exceptions the view handles, and for the command line the identifier of a new location;
-- for requests the fields that webargs parses, the factories of uploads, the answers of the
-- permission factory and `uuid.UUID`; for responses `url_for`, what a schema and `json.dumps`
-- make of the data, the guess of a type from a name, `str.lower`, the encodings of names, the
-- clock and `make_conditional`; for directories the answers of the file system, the methods of
-- texts that take paths apart, and the digest. Of most of them nothing is assumed. For
-- Storage/Saving PyFilesystem and the digest behave as the records `IsFileSystem` and `IsDigest`
-- say; for Rest/Quota the backend saves no more bytes than a limit that it is given;
-- for Cli/Running a new location gets an identifier that no location has.
--
-- Not modelled: `create_file_streaming_redirect_response`, which reads a URI with the standard
-- library; the declarations of the administration views, the migrations and the registration of
-- the Flask extension, which hold no logic of the models. `copy_from` is modelled and is no step
-- of a history, since it adds heads to a bucket without demoting those that are there.
pub mod Prelude
pub mod Errors
pub mod Schema
pub mod Session
pub mod Limiters
pub mod Admin
pub mod Cli
pub mod Extension
pub mod Config
pub mod Storage
pub mod FileInstance
pub mod Location
pub mod Bucket
pub mod Tags
pub mod ObjectVersion
pub mod Multipart
pub mod Permissions
pub mod Rest
pub mod Serializer
pub mod FormParser
pub mod Helpers
pub mod History
pub mod Tasks
pub mod Samples
