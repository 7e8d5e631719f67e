-- ===== src/I18n/TraditionalChinese/Panel.antt =====
-- web/lib/i18n/extra-zh.ts: the traditional Chinese texts of the panel, first half.
use wgtemporary_email.Base.{String, [], ◌∷◌}
use wgtemporary_email.Base.Dict.{Dict}

abbrev pub zh_tw_admin_first : Dict String
zh_tw_admin_first =
    ("adminPanel", "管理面板")
    ∷ ("dashboard", "儀表板")
    ∷ ("emails", "郵件管理")
    ∷ ("addresses", "地址管理")
    ∷ ("domains", "網域管理")
    ∷ ("config", "系統設定")
    ∷ ("cleanup", "資料清理")
    ∷ ("userSite", "使用者前端")
    ∷ ("logout", "登出")
    ∷ ("loginTitle", "管理面板登入")
    ∷ ("loginDesc", "輸入 config.yaml 中設定的管理權杖")
    ∷ ("loginPlaceholder", "管理權杖")
    ∷ ("loginBtn", "登入")
    ∷ ("loggingIn", "登入中...")
    ∷ ("loginFailed", "登入失敗，請檢查網路後重試")
    ∷ ("wrongToken", "管理權杖錯誤，請核對後重試")
    ∷ ("loginLocalNote", "權杖只儲存在瀏覽器本地，不會上傳到任何第三方")
    ∷ ("activeAddresses", "使用中地址")
    ∷ ("totalAddressesSub", "共 {n} 個")
    ∷ ("totalEmails", "郵件總數")
    ∷ ("unreadSub", "未讀 {n}")
    ∷ ("emails24h", "近 24 小時郵件")
    ∷ ("attachmentsTotal", "附件數量")
    ∷ ("storageUsage", "儲存占用")
    ∷ ("storageCap", "上限 {n} MB")
    ∷ ("storageNoCap", "未設上限")
    ∷ ("uptime", "運行時長")
    ∷ ("lifetimeSub", "地址有效期 {n}h")
    ∷ ("dbHealthy", "資料庫正常")
    ∷ ("dbError", "資料庫異常")
    ∷ ("configuredDomains", "已設定網域（{n}）")
    ∷ ("noDomains", "未設定網域")
    ∷ ("recentEmails", "最近郵件")
    ∷ ("recentAddresses", "最近地址")
    ∷ ("viewAll", "查看全部")
    ∷ ("noEmails", "暫無郵件")
    ∷ ("noAddresses", "暫無地址")
    ∷ ("active", "使用中")
    ∷ ("expired", "已過期")
    ∷ ("permanent", "長效")
    ∷ ("neverExpires", "永不過期")
    ∷ ("emailsCount", "{n} 封郵件")
    ∷ ("createdSub", "建立於 {time}")
    ∷ ("noSubject", "（無主旨）")
    ∷ ("subject", "主旨")
    ∷ ("fromCol", "寄件者")
    ∷ ("toCol", "收件地址")
    ∷ ("timeCol", "時間")
    ∷ ("sizeCol", "大小")
    ∷ ("actionsCol", "操作")
    ∷ ("statusCol", "狀態")
    ∷ ("emailCol", "信箱地址")
    ∷ ("emailCountCol", "郵件數")
    ∷ ("unreadCol", "未讀")
    ∷ ("createdCol", "建立時間")
    ∷ ("expiresCol", "過期時間")
    ∷ ("view", "查看")
    ∷ ("delete", "刪除")
    ∷ ("search", "搜尋")
    ∷ ("prev", "上一頁")
    ∷ ("next", "下一頁")
    ∷ ("pageOf", "第 {p} 頁 / {n} 頁")
    ∷ ("totalItems", "共 {n} 個")
    ∷ ("loading", "載入中...")
    ∷ ("loadFailed", "載入失敗，請重試")
    ∷ ("sessionExpired", "登入已失效，請重新登入")
    ∷ ("requestFailed", "請求失敗（{status}）")
    ∷ ("tooManyRequests", "請求過於頻繁，請稍後再試")
    ∷ ("serverError", "伺服器錯誤，請稍後重試")
    ∷ ("uptimeDaysHours", "{d} 天 {h} 小時")
    ∷ ("uptimeHoursMinutes", "{h} 小時 {m} 分鐘")
    ∷ ("uptimeMinutes", "{m} 分鐘")
    ∷ ("new", "新")
    ∷ ("emailsTitle", "郵件管理")
    ∷ ("searchEmailsPlaceholder", "搜尋主旨 / 寄件者 / 收件者")
    ∷ ("deleteEmailConfirm", "確定刪除這封郵件嗎？此操作無法復原。")
    ∷ ("dkimPass", "DKIM 通過")
    ∷ ("dkimFail", "DKIM 失敗")
    ∷ ("attachmentsN", "{n} 個附件")
    ∷ ("attachments", "附件")
    ∷ ("noContent", "無內容")
    ∷ ("viewRawHeaders", "查看原始郵件標頭")
    ∷ ("deleteThisEmail", "刪除此郵件")
    ∷ ("addressesTitle", "地址管理")
    ∷ ("mailboxes", "長效地址")
    ∷ ("mbTitle", "長效地址管理")
    ∷ ("mbDesc", "永不過期的信箱：地址永久保留，郵件在保留期結束後自動刪除。")
    ∷ ("mbTotal", "長效地址")
    ∷ ("mbEmails", "郵件總數")
    ∷ ("mbStorage", "佔用儲存")
    ∷ ("mbWithEmails", "{n} 個有郵件")
    ∷ ("mbUnreadSub", "{n} 封未讀")
    ∷ ("mbCap", "上限 {n}")
    ∷ ("mbCapUnlimited", "未設定數量上限")
    ∷ ("mbRetentionTitle", "郵件保留期")
    ∷ ("mbRetentionDays", "{n} 天")
    ∷ ("mbRunRetention", "立即清理一次")
    ∷ ("mbRetentionRan", "保留期清理刪除了 {n} 封郵件。")
    ∷ ("mbCreateTitle", "建立長效地址")
    ∷ ("mbCreateDesc", "存取權杖只顯示一次——請轉交使用者，它是讀取該信箱的唯一憑證。")
    ∷ ("mbUsernamePlaceholder", "使用者名稱")
    ∷ ("mbDomainPlaceholder", "網域")
    ∷ ("mbCreateBtn", "建立")
    ∷ ("mbCreating", "建立中...")
    ∷ ("mbNeedUsername", "請先填寫使用者名稱。")
    ∷ ("mbCreated", "已建立 {email}")
    ∷ ("mbCreatedNote", "請立即保存存取權杖，之後不再顯示。")
    ∷ ("mbCopyToken", "複製權杖")
    ∷ ("mbCopied", "已複製")
    ∷ ("mbCreatedDialogTitle", "信箱已建立")
    ∷ ("mbListTitle", "長效地址列表（{n}）")
    ∷ ("mbSearchPlaceholder", "搜尋地址...")
    ∷ ("mbSizeCol", "佔用")
    ∷ ("mbLastEmailCol", "最近收信")
    ∷ ("mbNever", "暫無")
    ∷ ("mbPurgeEmails", "清除郵件（保留地址）")
    ∷ ("mbPurgeConfirm", "確定清除 {email} 的全部郵件嗎？地址會保留。")
    ∷ ("mbPurged", "已從 {email} 清除 {n} 封郵件。")
    ∷ ("mbDelete", "刪除信箱")
    ∷ ("mbDeleteConfirm", "確定刪除 {email} 嗎？地址及其全部郵件將被永久刪除。")
    ∷ ("mbDeleted", "已刪除 {email}。")
    ∷ ("mbNoMailboxes", "尚無長效地址")
    ∷ ("searchAddressesPlaceholder", "搜尋信箱地址")
    ∷ ("createdExpiresSub", "建立於 {a} · 過期於 {b}")
    ∷ ("createdPermanentSub", "建立於 {a} · 長效信箱")
    ∷ ("emailsTotal", "共 {n} 封郵件")
    ∷ ("viewInEmails", "在郵件管理中查看")
    ∷ ("deleteAddressBtn", "刪除該地址及其所有郵件")
    ∷ []
