-- ===== src/Errno.antt =====
-- lib/freebsd/errno/lua_errno.c: the error numbers by name.
use bricoler.Base.{ℕ, String, List, [], ◌∷◌}
use bricoler.Lua.{M, pure, ◌>>◌}
use bricoler.Lua.Tables.{lua_newtable}
use bricoler.Os.{Os, add_constants}

abbrev pub errno_constants : List String
errno_constants =
    "EPERM" ∷ "ENOENT" ∷ "ESRCH" ∷ "EINTR" ∷ "EIO" ∷ "ENXIO" ∷ "E2BIG" ∷ "ENOEXEC" ∷ "EBADF"
    ∷ "ECHILD" ∷ "EDEADLK" ∷ "ENOMEM" ∷ "EACCES" ∷ "EFAULT" ∷ "ENOTBLK" ∷ "EBUSY" ∷ "EEXIST"
    ∷ "EXDEV" ∷ "ENODEV" ∷ "ENOTDIR" ∷ "EISDIR" ∷ "EINVAL" ∷ "ENFILE" ∷ "EMFILE" ∷ "ENOTTY"
    ∷ "ETXTBSY" ∷ "EFBIG" ∷ "ENOSPC" ∷ "ESPIPE" ∷ "EROFS" ∷ "EMLINK" ∷ "EPIPE" ∷ "EDOM" ∷ "ERANGE"
    ∷ "EAGAIN" ∷ "EWOULDBLOCK" ∷ "EINPROGRESS" ∷ "EALREADY" ∷ "ENOTSOCK" ∷ "EDESTADDRREQ"
    ∷ "EMSGSIZE" ∷ "EPROTOTYPE" ∷ "ENOPROTOOPT" ∷ "EPROTONOSUPPORT" ∷ "ESOCKTNOSUPPORT"
    ∷ "EOPNOTSUPP" ∷ "ENOTSUP" ∷ "EPFNOSUPPORT" ∷ "EAFNOSUPPORT" ∷ "EADDRINUSE" ∷ "EADDRNOTAVAIL"
    ∷ "ENETDOWN" ∷ "ENETUNREACH" ∷ "ENETRESET" ∷ "ECONNABORTED" ∷ "ECONNRESET" ∷ "ENOBUFS"
    ∷ "EISCONN" ∷ "ENOTCONN" ∷ "ESHUTDOWN" ∷ "ETOOMANYREFS" ∷ "ETIMEDOUT" ∷ "ECONNREFUSED" ∷ "ELOOP"
    ∷ "ENAMETOOLONG" ∷ "EHOSTDOWN" ∷ "EHOSTUNREACH" ∷ "ENOTEMPTY" ∷ "EPROCLIM" ∷ "EUSERS" ∷ "EDQUOT"
    ∷ "ESTALE" ∷ "EREMOTE" ∷ "EBADRPC" ∷ "ERPCMISMATCH" ∷ "EPROGUNAVAIL" ∷ "EPROGMISMATCH"
    ∷ "EPROCUNAVAIL" ∷ "ENOLCK" ∷ "ENOSYS" ∷ "EFTYPE" ∷ "EAUTH" ∷ "ENEEDAUTH" ∷ "EIDRM" ∷ "ENOMSG"
    ∷ "EOVERFLOW" ∷ "ECANCELED" ∷ "EILSEQ" ∷ "ENOATTR" ∷ "EDOOFUS" ∷ "EBADMSG" ∷ "EMULTIHOP"
    ∷ "ENOLINK" ∷ "EPROTO" ∷ "ENOTCAPABLE" ∷ "ECAPMODE" ∷ "ENOTRECOVERABLE" ∷ "EOWNERDEAD"
    ∷ "EINTEGRITY" ∷ "ELAST" ∷ []

unfoldable pub luaopen_errno : {W : Type 0} → Os W → M W ℕ
luaopen_errno os = do lua_newtable; add_constants os errno_constants; pure 1
